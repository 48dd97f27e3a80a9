-- ===== src/Adapter/Readiness/Alive.antt =====
-- internal/service/apply_readiness.go: when a probe finds Node-RED alive.
use native.Mathlib.Decide.{ℕ_discrete}
use nrcc.Base.{
  List, [], ◌∷◌, true, false, ℕ, zero, suc, ◌+◌, ◌≤◌, ◌<◌, ◌≡◌, ◌≢◌, ◌↔◌, refl, sym, ◌∙◌, ap, subst,
  String, false, Option, none, some, arith, str_eq,
}
use nrcc.Apply.Flight.{member}
use nrcc.Adapter.Readiness.{
  Reply, network_error, response, is_alive_status, probe_attempt, ReadinessConfig, Network, Probe,
  next_delay, retry, probe_round, probe_loop, probe_admin_ready,
}

-- An attempt that goes on to the next one.
pub record IsPassed (net : Network) (j : ℕ) : Type 0 where
  pub live : net.cancelled j ≡ none
  pub unreachable : (e : String) × (net.reply j ≡ network_error e)
  pub slept : net.cancelled_asleep j ≡ none

-- The statuses of a Node-RED that serves its administration, with or without a login.
abbrev pub alive_statuses : List ℕ
alive_statuses = 200 ∷ 204 ∷ 301 ∷ 302 ∷ 401 ∷ 403 ∷ []

pub data IsAlive (reply : Reply) : Type 0 where
  answered :
      (status : ℕ) → reply ≡ response status → member status alive_statuses ≡ true → IsAlive reply

probe_attempt-IsAlive : (reply : Reply) → probe_attempt reply ≡ none → IsAlive reply
unfolding probe_attempt is_alive_status
probe_attempt-IsAlive (network_error e) h = cc
probe_attempt-IsAlive (response status) h = answered status refl (ground arith)

IsAlive-probe_attempt : (reply : Reply) → IsAlive reply → probe_attempt reply ≡ none
unfolding probe_attempt is_alive_status
IsAlive-probe_attempt reply (answered status is ok_status) = rw is (ground arith)

-- The attempt, one of so many from a first one on, at which Node-RED answers.
pub record IsAliveAt (net : Network) (first left k : ℕ) : Type 0 where
  pub from : first ≤ k
  pub before_end : k < first + left
  pub live : net.cancelled k ≡ none
  pub alive : IsAlive (net.reply k)
  pub passed : (j : ℕ) → first ≤ j → j < k → IsPassed net j

later :
    (net : Network) (first left k : ℕ)
    → IsPassed net first
    → IsAliveAt net (suc first) left k
    → IsAliveAt net first (suc left) k
later net first left k pass there = record {
  from = omega (arith, there.from);
  before_end = omega (arith, there.before_end);
  live = there.live;
  alive = there.alive;
  passed = λ j h h'. elim (ℕ_discrete j first) [
    | yes e ↦ subst (IsPassed net) (sym e) pass
    | no ne ↦ there.passed j (omega arith) h'
  ];
}

sooner :
    (net : Network) (first left k : ℕ)
    → first ≢ k
    → IsAliveAt net first (suc left) k
    → IsAliveAt net (suc first) left k
sooner net first left k ne there = record {
  from = omega (arith, there.from);
  before_end = omega (arith, there.before_end);
  live = there.live;
  alive = there.alive;
  passed = λ j h h'. there.passed j (omega arith) h';
}

-- When a round ends well, with the probe of the rounds after it.
data EndsWell (before : Option String) (reply : Reply) (asleep : Option String) (left : ℕ)
    (rest : Probe) : Type 0 where
  now : before ≡ none → probe_attempt reply ≡ none → EndsWell before reply asleep left rest
  then_later :
      before ≡ none
      → (e : String) × (reply ≡ network_error e)
      → asleep ≡ none
      → rest.outcome ≡ none
      → EndsWell before reply asleep left rest

round-EndsWell :
    (before : Option String) (reply : Reply) (asleep : Option String) (left delay : ℕ)
    (rest : Probe)
    → (probe_round before reply asleep left delay rest).outcome ≡ none
    → EndsWell before reply asleep left rest
unfolding probe_round probe_attempt retry
round-EndsWell (some e) reply asleep left delay rest h = cc
round-EndsWell none (response status) asleep left delay rest h = now refl h
round-EndsWell none (network_error e) asleep zero delay rest h = cc
round-EndsWell none (network_error e) (some c) (suc left) delay rest h = cc
round-EndsWell none (network_error e) none (suc left) delay rest h =
    then_later refl (e, refl) refl h

answers_now :
    (reply : Reply) (asleep : Option String) (left delay : ℕ) (rest : Probe)
    → probe_attempt reply ≡ none
    → (probe_round none reply asleep left delay rest).outcome ≡ none
unfolding probe_round probe_attempt
answers_now (response status) asleep left delay rest h = h
answers_now (network_error e) asleep left delay rest h = cc

found :
    (net : Network) (first left delay : ℕ)
    → (probe_loop net first left delay).outcome ≡ none
    → (k : ℕ) × IsAliveAt net first left k
unfolding probe_loop
found net first zero delay h = cc
found net first (suc left) delay h =
    let rest = probe_loop net (suc first) left (next_delay delay) in
    elim (round-EndsWell (net.cancelled first) (net.reply first) (net.cancelled_asleep first) left
      delay rest h) [
        | now live alive ↦ (
          first,
          record {
            from = omega arith;
            before_end = omega arith;
            live = live;
            alive = probe_attempt-IsAlive (net.reply first) alive;
            passed = λ j h' h''. absurd (omega arith);
          },
        )
        | then_later live unreachable slept well ↦
            let (k, there) = found net (suc first) left (next_delay delay) well in
            let pass : IsPassed net first = record {
              live = live;
              unreachable = unreachable;
              slept = slept;
            } in
            (k, later net first left k pass there)
      ]

goes_on :
    (net : Network) (first left delay : ℕ) (rest : Probe)
    → IsPassed net first
    → 0 < left
    → rest.outcome ≡ none
    → (probe_round
        (net.cancelled first)
        (net.reply first)
        (net.cancelled_asleep first)
        left
        delay
        rest).outcome
      ≡ none
unfolding probe_round retry
goes_on net first zero delay rest pass some_left well = absurd (omega arith)
goes_on net first (suc left) delay rest pass some_left well =
    rw (pass.live, pass.unreachable.1, pass.slept) well

finds :
    (net : Network) (first left delay k : ℕ)
    → IsAliveAt net first left k
    → (probe_loop net first left delay).outcome ≡ none
unfolding probe_loop
finds net first zero delay k there = absurd (omega (arith, there.from, there.before_end))
finds net first (suc left) delay k there =
    let rest = probe_loop net (suc first) left (next_delay delay) in
    elim (ℕ_discrete first k) [
      | yes e ↦
          let live : net.cancelled first ≡ none = ap net.cancelled e ∙ there.live in
          let alive : probe_attempt (net.reply first) ≡ none =
            ap (λ j. probe_attempt (net.reply j)) e
            ∙ IsAlive-probe_attempt (net.reply k) there.alive in
          rw live (answers_now (net.reply first) (net.cancelled_asleep first) left delay rest alive)
      | no ne ↦
          let next =
            finds net (suc first) left (next_delay delay) k (sooner net first left k ne there) in
          goes_on net first left delay rest
            (there.passed first (omega arith) (omega (arith, there.from)))
            (omega (arith, there.from, there.before_end)) next
    ]

-- The probe of an address that is not blank succeeds just where one of its attempts gets an answer
-- with the status 200, 204, 301, 302, 401 or 403 and every attempt before that one is a network error;
-- no attempt up to there finds the context cancelled, nor does a sleep between them. With any other status,
-- such as 201, 202 or 206, the probe fails.
pub probe_admin_ready_iff :
    (trim_space : String → String) (net : Network) (config : ReadinessConfig) (admin_url : String)
    → str_eq (trim_space admin_url) "" ≡ false
    → (probe_admin_ready trim_space net config admin_url).outcome ≡ none
      ↔ ((k : ℕ) × IsAliveAt net 1 config.attempts k)
unfolding probe_admin_ready
probe_admin_ready_iff trim_space net config admin_url given =
    let loop : probe_admin_ready trim_space net config admin_url
        ≡ probe_loop net 1 config.attempts config.backoff =
      rw (given, probe_admin_ready) refl in
    (
      λ h. found net 1 config.attempts config.backoff (sym (ap (λ p. p.outcome) loop) ∙ h),
      λ (k, there). ap (λ p. p.outcome) loop ∙ finds net 1 config.attempts config.backoff k there,
    )
