-- ===== src/Apply/Flight/Release.antt =====
-- internal/service/apply_coordinator.go: the slot of a path over one whole call of `Apply`.
use nrcc.Base.{
  ℕ, ◌≡◌, refl, sym, ◌∙◌, ap, subst, inl, inr, String, Bool, false, Option, none, some, Result, err,
  arith, str_eq, eq_iff, eq_refl, Bool-cases, Option-cases,
}
use nrcc.Base.Assoc.{lookup, lookup-insert, lookup-erase}
use nrcc.Apply.{World, Outside, Cause, apply_in_flight, coordinator_failure}
use nrcc.Apply.Service.{ConfigService, ApplyRequest}
use nrcc.Apply.Pipeline.Stages.{emit_still}
use nrcc.Apply.Flight.{Flights, member, take_slot, close, release, coordinated_apply, with_slot}
use nrcc.Apply.Flight.Exclusion.{acquire_free, acquire_busy, vacate_held}

-- Taking a free slot and releasing it leaves every slot as it was.
release-take_slot :
    (p q : String) (fl : Flights)
    → lookup p fl.slots ≡ none
    → lookup q (release p fl.next (take_slot p fl).0).slots ≡ lookup q fl.slots
unfolding release take_slot close
release-take_slot p q fl free =
    let taken = (take_slot p fl).0 in
    let held : lookup p taken.slots ≡ some fl.next =
      ground (arith, lookup-insert p p fl.next fl.slots, eq_refl p) in
    ap (λ s. lookup q s.slots) (vacate_held p fl.next taken held)
    ∙ ground (arith, lookup-erase p q taken.slots, lookup-insert p q fl.next fl.slots, eq_iff p q)

module _ {S Config Patch : Type 0} (sha256_hex : String → String) (out : Outside)
    (svc : ConfigService S Config Patch) where
  -- In a coordinator whose slots hold open flights only, a call of `Apply` leaves every slot as it
  -- found it, whatever the transaction did; and a call on a busy path is refused and touches neither
  -- a file nor the store.
  pub coordinated_apply_slots :
      (resolver : Option (ApplyRequest Config Patch → Result Cause Bool))
      (req : ApplyRequest Config Patch) (fl : Flights) (w : World S)
      → ((f : ℕ) → lookup req.path fl.slots ≡ some f → member f fl.closed ≡ false)
      → let r = coordinated_apply sha256_hex out svc resolver req (fl, w) in
        ((q : String) → lookup q r.0.0.slots ≡ lookup q fl.slots)
        × ((f : ℕ)
            → str_eq req.path "" ≡ false
            → lookup req.path fl.slots ≡ some f
            → (r.1 ≡ err apply_in_flight) × (r.0.1.files ≡ w.files) × (r.0.1.store ≡ w.store))
  unfolding coordinated_apply take_slot
  coordinated_apply_slots resolver req fl w all_open = elim (Bool-cases (str_eq req.path "")) [
    | inl empty ↦ rw (empty, coordinated_apply) (λ q. refl, λ f h. cc)
    | inr named ↦ elim (Option-cases (lookup req.path fl.slots)) [
      | inr (f, busy) ↦
          let (files, store) = emit_still out (coordinator_failure "start" apply_in_flight) w in
          rw (named, coordinated_apply)
            (subst
              (λ a.
                let r = with_slot sha256_hex out svc resolver req w a in
                ((q : String) → lookup q r.0.0.slots ≡ lookup q fl.slots)
                × ((g : ℕ)
                    → false ≡ false
                    → lookup req.path fl.slots ≡ some g
                    → (r.1 ≡ err apply_in_flight)
                      × (r.0.1.files ≡ w.files)
                      × (r.0.1.store ≡ w.store)))
              (sym (acquire_busy req.path f fl busy (all_open f busy)))
              (λ q. refl, λ g h there. (refl, files, store)))
      | inl free ↦
          rw (named, coordinated_apply)
            (
              λ q.
                  ap (λ a. lookup q (with_slot sha256_hex out svc resolver req w a).0.0.slots)
                    (acquire_free req.path fl free)
                  ∙ release-take_slot req.path q fl free,
              λ f h there. cc,
            )
    ]
  ]
