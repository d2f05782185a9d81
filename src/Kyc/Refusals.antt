-- ===== src/Kyc/Refusals.antt =====
-- An approval by the method that makes the proposal cannot succeed, since its proposer has approved.
use prop_x_exchange.Prelude.{
  ℕ, ⊤, ◌≡◌, refl, ap, inl, inr, true, some, Option-cases, List, [], ◌∷◌, ◌==◌, ==_iff,
}
use prop_x_exchange.Prelude.Rows.{find_first}
use prop_x_exchange.Errors.{Error, user_not_found, wallet_missing, already_approved}
use prop_x_exchange.Exec.{Result, ok, err, ◌>>=◌, ◌>>◌}
use prop_x_exchange.Exchange.{World, Action}
use prop_x_exchange.Tables.Users.{Payload, whitelist_user, MultiSigProposal, sig_pending}
use prop_x_exchange.Users.Table.{find_user}
use prop_x_exchange.Kyc.MultiSig.{is_proposal, required, includes, create_proposal, approve}
use prop_x_exchange.Kyc.{queue_if_executed, approve_whitelist_proposal, initiate, approve_kyc}

propose_and_approve : ℕ → Payload → Action MultiSigProposal
propose_and_approve admin target =
    create_proposal admin target >>= λ p. approve_whitelist_proposal p.id admin

same_id : (n : ℕ) → (n == n) ≡ true
same_id n = (==_iff n n).1 refl

new_row : ℕ → ℕ → Payload → MultiSigProposal
new_row id admin target = record {
  id = id;
  payload = target;
  status = sig_pending;
  required_approvals = required;
  approvals = admin ∷ [];
}

first_found :
    (id admin : ℕ) (target : Payload) (rows : List MultiSigProposal)
    → find_first (is_proposal id) (new_row id admin target ∷ rows) ≡ some (new_row id admin target)
unfolding find_first new_row
first_found id admin target rows = rw (same_id id) refl

approve_refused :
    (id admin : ℕ) (target : Payload) (w : World)
    → find_first (is_proposal id) w.multi_sig_proposals ≡ some (new_row id admin target)
    → approve id admin w ≡ (err already_approved, w)
unfolding approve new_row includes
approve_refused id admin target w h = rw h (rw (same_id admin) refl)

then_queue : ℕ → Result MultiSigProposal × World → Result MultiSigProposal × World
then_queue admin r = elim r.0 [ ok p ↦ queue_if_executed admin p r.1 | err e ↦ (err e, r.1) ]

proposer_refused :
    (admin : ℕ) (target : Payload) (w : World)
    → (propose_and_approve admin target w).0 ≡ err already_approved
proposer_refused admin target w =
    unfold propose_and_approve create_proposal approve_whitelist_proposal then_queue new_row in
    ap (λ r. (then_queue admin r).0)
      (approve_refused w.next_id admin target (create_proposal admin target w).1
        (first_found w.next_id admin target w.multi_sig_proposals))

initiate_and_propose : ℕ → ℕ → ℕ → Action MultiSigProposal
initiate_and_propose user admin wallet =
    initiate user admin
    >> propose_and_approve admin
        (whitelist_user (record { user_id = user; wallet_address = wallet }))

continued : ℕ → Payload → Result ⊤ × World → Result MultiSigProposal × World
continued admin target r = elim r.0 [
  | ok x ↦ propose_and_approve admin target r.1
  | err e ↦ (err e, r.1)
]

initiated_refused :
    (user admin wallet : ℕ) (w : World)
    → (e : Error) × ((initiate_and_propose user admin wallet w).0 ≡ err e)
unfolding initiate_and_propose continued
initiated_refused user admin wallet w = go (initiate user admin w)
  where
    target : Payload
    target = whitelist_user (record { user_id = user; wallet_address = wallet })

    go : (r : Result ⊤ × World) → (e : Error) × ((continued admin target r).0 ≡ err e)
    go (ok x, w') = (already_approved, proposer_refused admin target w')
    go (err e, w') = (e, refl)

-- The approval of a user's identity check by an administrator raises, whoever the user and the
-- administrator are and whatever the database holds.
pub approve_kyc_raises :
    (user admin : ℕ) (w : World) → (e : Error) × ((approve_kyc user admin w).0 ≡ err e)
unfolding approve_kyc
approve_kyc_raises user admin w = elim (Option-cases (find_user user w.users)) [
  | inl e ↦ (user_not_found, rw e refl)
  | inr (u, e) ↦ elim (Option-cases u.wallet_address) [
    | inl f ↦ (wallet_missing, rw (e, f) refl)
    | inr (a, f) ↦
        let (x, g) = initiated_refused user admin a w in
        (x, rw (e, f) (unfold initiate_and_propose propose_and_approve in g))
  ]
]
