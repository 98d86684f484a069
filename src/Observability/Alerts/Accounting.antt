-- ===== src/Observability/Alerts/Accounting.antt =====
-- No channel of an alert is forgotten.
use oracle_repo.Base.{
  refl, ◌≡◌, ◌∙◌, ap, some, if◌then◌else◌, suc, String, Bool, true, false, not, List, [], ◌∷◌,
  filter, length, arith,
}
use oracle_repo.Platform.{Result, ok, err}
use oracle_repo.Observability.Alerts.{
  Channel, parse_channel, DispatchResult, attempted, AlertDispatcher, sender_of, add_outcome,
  send_to, dispatch,
}

abbrev parses : Result Channel → Bool
parses (ok c) = true
parses (err e) = false

abbrev pub is_channel : String → Bool
is_channel spec = parses (parse_channel spec)

-- A channel that has been tried is counted, and is not unroutable.
tried :
    (spec : String) (c : Channel) (sent : Result (Unit {0})) (r : DispatchResult)
    → ((add_outcome spec (some (c, sent)) r).unroutable ≡ r.unroutable)
      × (attempted (add_outcome spec (some (c, sent)) r) ≡ suc (attempted r))
unfolding add_outcome attempted
tried spec c (ok u) r = (refl, omega arith)
tried spec c (err e) r = (refl, omega arith)

module _ {A O : Type 0} where
  counted :
      (d : AlertDispatcher A O) (alert : A) (spec : String) (c : Result Channel) (o : O)
      (r : DispatchResult)
      → ((add_outcome spec (send_to d alert c o).0 r).unroutable
          ≡ (if not (parses c) then spec ∷ r.unroutable else r.unroutable))
        × (attempted (add_outcome spec (send_to d alert c o).0 r)
            ≡ (if parses c then suc (attempted r) else attempted r))
  unfolding send_to add_outcome attempted
  counted d alert spec (err e) o r = (refl, refl)
  counted d alert spec (ok c) o r = tried spec c (sender_of d c c alert o).0 r

  -- dispatch reports as unroutable exactly the channels that do not parse, in their order, and
  -- has tried every other one, whatever the senders raise.
  pub dispatch_lem :
      (d : AlertDispatcher A O) (alert : A) (specs : List String) (o : O)
      → ((dispatch d alert specs o).0.unroutable ≡ filter (λ s. not (is_channel s)) specs)
        × (attempted (dispatch d alert specs o).0 ≡ length (filter is_channel specs))
  unfolding dispatch attempted
  dispatch_lem d alert [] o = (refl, refl)
  dispatch_lem d alert (spec ∷ specs) o =
      let sent = send_to d alert (parse_channel spec) o in
      let rest = dispatch_lem d alert specs sent.1 in
      let here = counted d alert spec (parse_channel spec) o (dispatch d alert specs sent.1).0 in
      (
        here.0 ∙ ap (λ u. if not (is_channel spec) then spec ∷ u else u) rest.0,
        here.1
            ∙ ap (λ n. if is_channel spec then suc n else n) rest.1
            ∙ length_if (is_channel spec) spec (filter is_channel specs),
      )
    where
      length_if :
          (b : Bool) (x : String) (xs : List String)
          → (if b then suc (length xs) else length xs) ≡ length (if b then x ∷ xs else xs)
      length_if true x xs = refl
      length_if false x xs = refl
