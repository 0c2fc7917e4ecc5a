-- ===== src/Backend/Token/ResetToken.antt =====
-- aquic-core/src/backend/token/padded.rs: reset tokens, which are shortened message authentication codes.
use aquic.Base.{
  ℕ, ◌≤◌, ◌≡◌, refl, ap, ◌∙◌, false, List, [], ltb, if◌then◌else◌, le→ltb, length, take,
  length-take, Outcome, done, panic, ◌>>=◌,
}
use aquic.Util.Hmac.{MacAlgorithm, KeyStore, Hmac, compute}
use aquic.Util.Hmac.Rotation.{IsSynced, synced, compute-active}

module _ (M : MacAlgorithm) where
  -- `self.plaintext_buffer[0..16]`
  unfoldable pub first_sixteen : Hmac M × List ℕ → Outcome (Hmac M × List ℕ)
  first_sixteen (hmac, buffer) =
      if ltb (length buffer) 16 then panic else done (hmac, take 16 buffer)

  unfoldable pub generate_reset_token : Hmac M → KeyStore M → List ℕ → Outcome (Hmac M × List ℕ)
  unfolding first_sixteen
  generate_reset_token hmac store server_scid =
      compute M hmac store server_scid [] >>= first_sixteen

  -- Under one state of the key store, the token of a connection ID has 16 bytes and is always the same,
  -- if the codes have at least as many bytes.
  pub generate_reset_token-same :
      (s t : Hmac M) (store : KeyStore M) (server_scid : List ℕ)
      → IsSynced M s store
      → IsSynced M t store
      → 16 ≤ length (M.compute_mac store.active server_scid)
      → (token : List ℕ) × (length token ≡ 16)
        × (generate_reset_token s store server_scid ≡ done (synced M store, token))
        × (generate_reset_token t store server_scid ≡ done (synced M store, token))
  unfolding generate_reset_token
  generate_reset_token-same s t store server_scid vs vt h =
      let code = M.compute_mac store.active server_scid in
      let long : ltb (length code) 16 ≡ false = le→ltb _ _ h in
      let cut : first_sixteen (synced M store, code) ≡ done (synced M store, take 16 code) =
        simp long refl in
      (
        take 16 code,
        length-take 16 code h,
        ap (λ o. o >>= first_sixteen) (compute-active M s store server_scid [] vs) ∙ cut,
        ap (λ o. o >>= first_sixteen) (compute-active M t store server_scid [] vt) ∙ cut,
      )
