-- ===== src/Identity/Kyc/Progress.antt =====
-- How the verification of an identity moves on.
use lendoor_stellar.Common.{
  ℕ, ◌≡◌, refl, ◌⊎◌, inl, inr, ◌↔◌, not, ◌||◌, Option, none, some, ◌∷◌, Text, text_eq, text_eq_refl,
  eq_of_text_eq, ok, err, arith, ap, ◌∙◌, Result-cases, Option-cases, Bool-cases,
}
use lendoor_stellar.Cctp.Transfer.{is_falsy}
use lendoor_stellar.Identity.Kyc.{
  pending, approved, KycDecision, undecided, approval, rejection, User, KycProvider, Users,
  update_user, KycError, find_user_or_throw, is_pending, start_row, start, record_decision,
  status_row, status, reply_of, users_after, vendor_after,
}

found :
    (users : Users) (addr wallet : Text) (user : User)
    → find_user_or_throw users addr ≡ ok (wallet, user)
    → users wallet ≡ some user
unfolding find_user_or_throw
found users addr wallet user h = ground arith

module _ {V : Type 0} (provider : KycProvider V) where
  -- An approved row is kept, and one that appears was there, or had a session that the vendor
  -- approves.
  abbrev Earned : Users → V → Text → User → Option User → Type 0
  Earned users v w u after =
      ((users w ≡ some u) → after ≡ some u)
      × (after ≡ some u
          → (users w ≡ some u)
            ⊎ ((before : User) × (sid : Text) × (users w ≡ some before)
                × (before.kyc_session_id ≡ some sid)
                × (provider.get_decision v sid ≡ some approval)))

  start_row-approvals :
      (wallet w : Text) (user : User) (users : Users) (v : V) (u : User)
      → users wallet ≡ some user
      → u.kyc_status ≡ approved
      → (users_after (start_row provider wallet user users v) w ≡ some u) ↔ (users w ≡ some u)
  start_row-approvals wallet w user users v u f h = elim (Bool-cases (text_eq w wallet)) [
    | inl e ↦ let p : w ≡ wallet = eq_of_text_eq w wallet e in ground arith
    | inr e ↦ ground arith
  ]

  decision-approvals :
      (now : ℕ) (d : KycDecision) (wallet w sid : Text) (user : User) (users : Users) (v : V)
      (u : User)
      → users wallet ≡ some user
      → u.kyc_status ≡ approved
      → user.kyc_session_id ≡ some sid
      → user.kyc_status ≡ pending
      → provider.get_decision v sid ≡ some d
      → Earned users v w u (users_after (record_decision provider now d wallet user users v) w)
  decision-approvals now approval wallet w sid user users v u f h g k q =
      elim (Bool-cases (text_eq w wallet)) [
        | inl e ↦
            let p : w ≡ wallet = eq_of_text_eq w wallet e in
            (ground arith, λ r. inr (user, sid, ap users p ∙ f, g, q))
        | inr e ↦ (ground arith, λ r. inl (ground arith))
      ]
  decision-approvals now rejection wallet w sid user users v u f h g k q =
      elim (Bool-cases (text_eq w wallet)) [
        | inl e ↦
            let p : w ≡ wallet = eq_of_text_eq w wallet e in (ground arith, λ r. inl (ground arith))
        | inr e ↦ (ground arith, λ r. inl (ground arith))
      ]
  decision-approvals now undecided wallet w sid user users v u f h g k q = (λ r. r, λ r. inl r)

  status_row-approvals :
      (now : ℕ) (wallet w : Text) (user : User) (users : Users) (v : V) (u : User)
      → users wallet ≡ some user
      → u.kyc_status ≡ approved
      → Earned users v w u (users_after (status_row provider now wallet user users v) w)
  status_row-approvals now wallet w user users v u f h = elim (Option-cases user.kyc_session_id) [
    | inl e ↦ rw (status_row, e) (λ r. r, λ r. inl r)
    | inr (sid, e) ↦ elim (Bool-cases (not (is_pending user.kyc_status) || is_falsy (some sid))) [
      | inl g ↦ rw (status_row, e, g) (λ r. r, λ r. inl r)
      | inr g ↦ elim (Option-cases (provider.get_decision v sid)) [
        | inl q ↦ rw (status_row, e, g, q) (λ r. r, λ r. inl r)
        | inr (d, q) ↦
            rw (status_row, e, g, q)
              (decision-approvals now d wallet w sid user users v u f h e (ground arith) q)
      ]
    ]
  ]

  start_found :
      (addr wallet : Text) (user : User) (users : Users) (v : V)
      → find_user_or_throw users addr ≡ ok (wallet, user)
      → start provider addr users v ≡ start_row provider wallet user users v
  unfolding start
  start_found addr wallet user users v e = rw (start, e) refl

  status_found :
      (now : ℕ) (addr wallet : Text) (user : User) (users : Users) (v : V)
      → find_user_or_throw users addr ≡ ok (wallet, user)
      → status provider now addr users v ≡ status_row provider now wallet user users v
  unfolding status
  status_found now addr wallet user users v e = rw (status, e) refl

  start_missing :
      (addr : Text) (users : Users) (v : V) (x : KycError)
      → find_user_or_throw users addr ≡ err x
      → start provider addr users v ≡ (err x, users, v)
  unfolding start
  start_missing addr users v x e = rw (start, e) refl

  status_missing :
      (now : ℕ) (addr : Text) (users : Users) (v : V) (x : KycError)
      → find_user_or_throw users addr ≡ err x
      → status provider now addr users v ≡ (err x, users, v)
  unfolding status
  status_missing now addr users v x e = rw (status, e) refl

  -- Starting a verification never takes an approval away and never grants one: a row is approved
  -- after it exactly when the same row was approved before it.
  pub start_keeps_approvals :
      (addr w : Text) (users : Users) (v : V) (u : User)
      → u.kyc_status ≡ approved
      → (users_after (start provider addr users v) w ≡ some u) ↔ (users w ≡ some u)
  unfolding start
  start_keeps_approvals addr w users v u h = elim (Result-cases (find_user_or_throw users addr)) [
    | inl ((wallet, user), e) ↦
        rw (start_found addr wallet user users v e)
          (start_row-approvals wallet w user users v u (found users addr wallet user e) h)
    | inr (x, e) ↦ rw (start_missing addr users v x e) (λ k. k, λ k. k)
  ]

  -- Asking for the status never changes a row that is approved, and a row that is approved after
  -- it was approved before it, or held a session on which the vendor had decided for approval.
  pub status_earns_approval :
      (now : ℕ) (addr w : Text) (users : Users) (v : V) (u : User)
      → u.kyc_status ≡ approved
      → Earned users v w u (users_after (status provider now addr users v) w)
  unfolding status
  status_earns_approval now addr w users v u h =
      elim (Result-cases (find_user_or_throw users addr)) [
        | inl ((wallet, user), e) ↦
            rw (status_found now addr wallet user users v e)
              (status_row-approvals now wallet w user users v u (found users addr wallet user e) h)
        | inr (x, e) ↦ rw (status_missing now addr users v x e) (λ k. k, λ k. inl k)
      ]

  found_again :
      (users : Users) (addr wallet : Text) (user u : User)
      → find_user_or_throw users addr ≡ ok (wallet, user)
      → find_user_or_throw (update_user users wallet u) addr ≡ ok (wallet, u)
  unfolding find_user_or_throw
  found_again users addr wallet user u h = ground (arith, text_eq_refl wallet)

  -- A first answer with an address to visit comes from a session that was opened.
  opened :
      (wallet : Text) (user : User) (users : Users) (v : V) (c : ℕ) (sid url : Text)
      → reply_of (start_row provider wallet user users v)
        ≡ ok (record { status = pending; session_id = some (c ∷ sid); verification_url = some url })
      → (u : User) × (users_after (start_row provider wallet user users v)
          ≡ update_user users wallet u)
        × (u.kyc_status ≡ pending)
        × (u.kyc_session_id ≡ some (c ∷ sid))
  opened wallet user users v c sid url h =
      elim (Option-cases (provider.create_session v user.wallet_address)) [
        | inl q ↦ ground arith
        | inr ((session, v'), q) ↦ (
          record user {
            kyc_status = pending;
            kyc_session_id = some session.session_id;
            kyc_provider = some provider.name;
          },
          ground arith,
          refl,
          ground arith,
        )
      ]

  start_row-pending :
      (wallet : Text) (u : User) (users : Users) (v : V) (c : ℕ) (sid : Text)
      → u.kyc_status ≡ pending
      → u.kyc_session_id ≡ some (c ∷ sid)
      → start_row provider wallet u users v ≡ (
        ok (record { status = pending; session_id = some (c ∷ sid); verification_url = none }),
        users,
        v,
      )
  start_row-pending wallet u users v c sid s k = rw (start_row, s, k) refl

  -- Starting again, on a session that the vendor opened with an identifier that is not empty, opens
  -- no other session: it answers with the same identifier and changes neither a row nor the vendor.
  pub start_twice :
      (addr : Text) (users : Users) (v : V) (c : ℕ) (sid url : Text)
      → reply_of (start provider addr users v)
        ≡ ok (record { status = pending; session_id = some (c ∷ sid); verification_url = some url })
      → start provider addr
          (users_after (start provider addr users v))
          (vendor_after (start provider addr users v))
        ≡ (
          ok (record { status = pending; session_id = some (c ∷ sid); verification_url = none }),
          users_after (start provider addr users v),
          vendor_after (start provider addr users v),
        )
  unfolding start
  start_twice addr users v c sid url h = elim (Result-cases (find_user_or_throw users addr)) [
    | inl ((wallet, user), e) ↦
        let r = start_found addr wallet user users v e in
        let (u, after, s, k) = opened wallet user users v c sid url (rw (← r) h) in
        let v' = vendor_after (start_row provider wallet user users v) in
        let again = update_user users wallet u in
        rw (r, after, start_found addr wallet u again v' (found_again users addr wallet user u e))
          (start_row-pending wallet u again v' c sid s k)
    | inr (x, e) ↦ ground (arith, start_missing addr users v x e)
  ]
