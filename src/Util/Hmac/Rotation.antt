-- ===== src/Util/Hmac/Rotation.antt =====
-- What is accepted while the keys rotate (aquic-core/src/util/hmac.rs).
use aquic.Base.{
  ℕ, ◌≡◌, refl, sym, ap, ◌∙◌, ◌↔◌, inl, inr, true, false, List, [], ◌∷◌, ◌++◌, ◌==◌, ==_iff,
  ==-cases, Bool-cases, length, done,
}
use aquic.Util.Hmac.{
  MacAlgorithm, KeyStore, Hmac, ct_eq, update_keys, compare_and_update_keys, compute, compute_with,
  any_authentic, verify_fn, verify,
}

ct_eq_iff : (xs ys : List ℕ) → (ct_eq xs ys ≡ true) ↔ (xs ≡ ys)
unfolding ct_eq
ct_eq_iff xs ys = (sound xs ys, λ e. ap (ct_eq xs) (sym e) ∙ reflexive xs)
  where
    sound : (xs ys : List ℕ) → ct_eq xs ys ≡ true → xs ≡ ys
    sound [] [] h = refl
    sound [] (y ∷ ys) h = cc
    sound (x ∷ xs) [] h = cc
    sound (x ∷ xs) (y ∷ ys) h = elim (==-cases x y) [
      | inl (e, same) ↦ let rest : xs ≡ ys = sound xs ys (simp e at h) in cc
      | inr (e, other) ↦ let no : false ≡ true = simp e at h in cc
    ]

    reflexive : (xs : List ℕ) → ct_eq xs xs ≡ true
    reflexive [] = refl
    reflexive (x ∷ xs) = simp ((==_iff x x).1 refl) (reflexive xs)

module _ (M : MacAlgorithm) where
  abbrev pub keys : KeyStore M → List M.Key
  keys store = store.active ∷ store.passive

  -- The macs are those of the store, if it still has the revision that they were made at.
  abbrev pub IsSynced : Hmac M → KeyStore M → Type 0
  IsSynced s store = s.revision ≡ store.revision → s.macs ≡ keys store

  abbrev pub synced : KeyStore M → Hmac M
  synced store = record { macs = keys store; revision = store.revision }

  -- One of some keys makes the code of the bytes.
  pub data IsMadeBy (data_bytes code : List ℕ) : List M.Key → Type 0 where
    by_first :
        {k : M.Key} {ks : List M.Key}
        → M.compute_mac k data_bytes ≡ code
        → IsMadeBy data_bytes code (k ∷ ks)
    by_later :
        {k : M.Key} {ks : List M.Key}
        → IsMadeBy data_bytes code ks
        → IsMadeBy data_bytes code (k ∷ ks)

  update-keys :
      (s : Hmac M) (store : KeyStore M)
      → IsSynced s store
      → compare_and_update_keys M s store ≡ synced store
  unfolding compare_and_update_keys update_keys
  update-keys s store v = elim (Bool-cases (s.revision == store.revision)) [
    | inl e ↦ simp e (
        same_record (v ((==_iff s.revision store.revision).0 e))
          ((==_iff s.revision store.revision).0 e))
    | inr e ↦ simp e refl
  ]
    where
      same_record : s.macs ≡ keys store → s.revision ≡ store.revision → s ≡ synced store
      same_record c r =
          ap (λ (ks : List M.Key). record { macs = ks; revision = s.revision }) c
          ∙ ap (λ n. record { macs = keys store; revision = n }) r

  pub compute-active :
      (s : Hmac M) (store : KeyStore M) (data_bytes out : List ℕ)
      → IsSynced s store
      → compute M s store data_bytes out
        ≡ done (synced store, out ++ M.compute_mac store.active data_bytes)
  unfolding compute
  compute-active s store data_bytes out v =
      ap (λ (u : Hmac M). compute_with M u data_bytes out) (update-keys s store v)

  any_authentic-IsMadeBy :
      (ks : List M.Key) (data_bytes code : List ℕ)
      → (any_authentic M ks data_bytes code (λ hmac. hmac) ≡ true) ↔ IsMadeBy data_bytes code ks
  unfolding any_authentic
  any_authentic-IsMadeBy [] data_bytes code = (λ e. cc, λ m. elim m [ ])
  any_authentic-IsMadeBy (k ∷ ks) data_bytes code =
      let ih = any_authentic-IsMadeBy ks data_bytes code in
      let same = ct_eq_iff (M.compute_mac k data_bytes) code in
      elim (Bool-cases (ct_eq (M.compute_mac k data_bytes) code)) [
        | inl e ↦ rw e (λ h. by_first (same.0 e), λ m. refl)
        | inr e ↦ rw e (
          λ h. by_later (ih.0 h),
          λ m. elim m [
            | by_first p ↦ let no : false ≡ true = sym e ∙ same.1 p in cc
            | by_later later ↦ ih.1 later
          ],
        )
      ]

  length-IsMadeBy :
      ((k : M.Key) (data_bytes : List ℕ) → length (M.compute_mac k data_bytes) ≡ M.output_size)
      → {data_bytes code : List ℕ} {ks : List M.Key} → IsMadeBy data_bytes code ks
      → length code ≡ M.output_size
  length-IsMadeBy sized {data_bytes = d} (by_first {k = k} p) = ap length (sym p) ∙ sized k d
  length-IsMadeBy sized (by_later m) = length-IsMadeBy sized m

  -- A code is computed with the active key, and one is accepted exactly if a key that the store has now
  -- makes it of the bytes, where the outputs of the algorithm have its output size.
  hmac_lem :
      (s : Hmac M) (store : KeyStore M) (data_bytes code out : List ℕ)
      → IsSynced s store
      → ((k : M.Key) (bytes : List ℕ) → length (M.compute_mac k bytes) ≡ M.output_size)
      → (compute M s store data_bytes out
          ≡ done (synced store, out ++ M.compute_mac store.active data_bytes))
        × (((verify M s store data_bytes code).1 ≡ true) ↔ IsMadeBy data_bytes code (keys store))
  unfolding verify verify_fn
  hmac_lem s store data_bytes code out v sized =
      let updated = update-keys s store v in
      (
        compute-active s store data_bytes out v,
        elim (==-cases (length code) M.output_size) [
          | inl (e, right_length) ↦
              simp (e, updated) (any_authentic-IsMadeBy (keys store) data_bytes code)
          | inr (e, other) ↦ simp e (λ h. cc, λ m. absurd (other (length-IsMadeBy sized m)))
        ],
      )
