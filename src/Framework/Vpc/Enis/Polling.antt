-- ===== src/Framework/Vpc/Enis/Polling.antt =====
-- `waitForENIAvailable`: the polling ends, and what its success means.
use Prim.Native.Nat.{◌/◌}
use openshift_online_rosa_e.Base.{
  ℕ, zero, suc, ◌+◌, ◌*◌, ◌≤◌, ◌<◌, String, ◌≡◌, ◌≢◌, inl, inr, true, Option, none, some, List, [],
  ◌∷◌, arith, ltb, Bool-cases, Option-cases, eq_iff, Result, ok, err, refl,
}
use openshift_online_rosa_e.Base.Io.{Io, ◌>>◌}
use openshift_online_rosa_e.Base.Text.{contains}
use openshift_online_rosa_e.Framework.Vpc.Types.{
  AwsError, NetworkInterface, Ec2Client, Timing, Session, out_of_fuel, invalid_eni,
}
use openshift_online_rosa_e.Framework.Vpc.Calls.{Cleanup, pause}
use openshift_online_rosa_e.Framework.Vpc.Enis.{
  poll_eni, poll_rounds, wait_for_eni_available, eni_verdict, poll_round, settle,
}

-- What a clock does: a call never turns it back, and a timer that fires has waited its time.
pub record IsClock {World Permission : Type 0} (client : Ec2Client World Permission) : Type 0 where
  pub describe_later :
      (eni_id : String) (w : World)
      → client.now w ≤ client.now (client.describe_network_interface eni_id w).1
  pub sleep_longer :
      (duration : ℕ) (w : World)
      → (client.sleep duration w).0 ≡ none
      → client.now w + duration ≤ client.now (client.sleep duration w).1

module _ {World Permission : Type 0} (client : Ec2Client World Permission) (timing : Timing) where
  open timing use {eni_detach_timeout as timeout, eni_detach_poll_interval as interval}

  poll_round-ne-out_of_fuel :
      IsClock client
      → (deadline : ℕ) (eni_id : String) (rest : Cleanup World (Unit {0})) (s : Session World)
      → ((s' : Session World)
          → client.now s.world ≤ deadline
          → client.now s.world + interval ≤ client.now s'.world
          → (rest s').0 ≢ err out_of_fuel)
      → (poll_round client timing deadline eni_id rest s).0 ≢ err out_of_fuel
  unfolding poll_round
  poll_round-ne-out_of_fuel clock deadline eni_id rest s h =
      let described = client.describe_network_interface eni_id s.world in
      let slept = client.sleep interval described.1 in
      ground (
        arith,
        clock.describe_later eni_id s.world,
        clock.sleep_longer interval described.1,
        h (record s { world = slept.1 }),
      )

  -- While the rounds left outlast the deadline, the loop does not run out of them.
  poll_eni-ne-out_of_fuel :
      IsClock client
      → (rounds deadline : ℕ) (eni_id : String) (s : Session World)
      → deadline < client.now s.world + rounds * interval
      → (poll_eni client timing (suc rounds) deadline eni_id s).0 ≢ err out_of_fuel
  unfolding poll_eni
  poll_eni-ne-out_of_fuel clock zero deadline eni_id s h =
      poll_round-ne-out_of_fuel clock deadline eni_id _ s (λ s' before _. absurd (omega arith))
  poll_eni-ne-out_of_fuel clock (suc rounds) deadline eni_id s h =
      poll_round-ne-out_of_fuel clock deadline eni_id _ s
        (λ s' _ later. poll_eni-ne-out_of_fuel clock rounds deadline eni_id s' (omega arith))

  -- A poll interval that is not zero makes the rounds enough: the polling ends by itself.
  pub wait_for_eni_available-ne-out_of_fuel :
      IsClock client
      → 0 < interval
      → (eni_id : String) (s : Session World)
      → (wait_for_eni_available client timing eni_id s).0 ≢ err out_of_fuel
  unfolding wait_for_eni_available
  wait_for_eni_available-ne-out_of_fuel clock positive eni_id s =
      poll_eni-ne-out_of_fuel clock (suc (timeout / interval)) _ eni_id s (grind arith)

-- What the code takes for detached: the interface is not known any more, none is listed, or the first
-- one listed is available.
abbrev pub IsDetached : Result AwsError (List NetworkInterface) → Type 0
IsDetached (err e) = contains e invalid_eni ≡ true
IsDetached (ok []) = Unit
IsDetached (ok (eni ∷ _)) = eni.status ≡ "available"

eni_verdict-IsDetached :
    (eni_id : String) (answer : Result AwsError (List NetworkInterface))
    → eni_verdict eni_id answer ≡ some (ok tt)
    → IsDetached answer
eni_verdict-IsDetached eni_id (err e) h = ground arith
eni_verdict-IsDetached eni_id (ok []) h = tt
eni_verdict-IsDetached eni_id (ok (eni ∷ _)) h = ground (arith, eq_iff eni.status "available")

-- The world `w` is the one that an answer of `describe` left, and that answer shows the interface
-- detached.
pub record SeenDetached {World Permission : Type 0} (client : Ec2Client World Permission)
    (eni_id : String) (w : World) : Type 0 where
  pub before : World
  pub answered : IsDetached (client.describe_network_interface eni_id before).0
  pub left : (client.describe_network_interface eni_id before).1 ≡ w

module _ {World Permission : Type 0} (client : Ec2Client World Permission) where
  -- After a successful pause and rest, whatever the rest gives holds.
  pause-ok :
      (P : Session World → Type 0) (duration : ℕ) (rest : Cleanup World (Unit {0}))
      (s : Session World)
      → ((s' : Session World) → (rest s').0 ≡ ok tt → P (rest s').1)
      → ((pause client duration >> rest) s).0 ≡ ok tt
      → P ((pause client duration >> rest) s).1
  pause-ok P duration rest s keep h = elim (Option-cases (client.sleep duration s.world).0) [
    | inl fired ↦ rw fired (keep _ (rw fired at h))
    | inr (e, done) ↦ cc (done, h)
  ]

-- A round that settles has a successful verdict, or it is the rest that succeeded.
settle-ok :
    {E S : Type 0} (P : S → Type 0) (v : Option (Result E (Unit {0}))) (again : Io E S (Unit {0}))
    (s : S)
    → (v ≡ some (ok tt) → P s)
    → ((again s).0 ≡ ok tt → P (again s).1)
    → (settle v again s).0 ≡ ok tt
    → P (settle v again s).1
settle-ok P none again s now later h = later h
settle-ok P (some (ok tt)) again s now later h = now refl
settle-ok P (some (err e)) again s now later h = cc

module _ {World Permission : Type 0} (client : Ec2Client World Permission) (timing : Timing) where
  abbrev Seen : String → Session World → Type 0
  Seen eni_id s = SeenDetached client eni_id s.world

  poll_round-Seen :
      (deadline : ℕ) (eni_id : String) (rest : Cleanup World (Unit {0})) (s : Session World)
      → ((s' : Session World) → (rest s').0 ≡ ok tt → Seen eni_id (rest s').1)
      → (poll_round client timing deadline eni_id rest s).0 ≡ ok tt
      → Seen eni_id (poll_round client timing deadline eni_id rest s).1
  unfolding poll_round
  poll_round-Seen deadline eni_id rest s keep h =
      elim (Bool-cases (ltb deadline (client.now s.world))) [
        | inl late ↦ cc (late, rw late at h)
        | inr in_time ↦ rw in_time (
            settle-ok (Seen eni_id) _ _ _
              (λ v. record {
                before = s.world;
                answered = eni_verdict-IsDetached eni_id _ v;
                left = refl;
              })
              (pause-ok client (Seen eni_id) timing.eni_detach_poll_interval rest _ keep)
              (rw in_time at h))
      ]

  poll_eni-Seen :
      (rounds deadline : ℕ) (eni_id : String) (s : Session World)
      → (poll_eni client timing rounds deadline eni_id s).0 ≡ ok tt
      → Seen eni_id (poll_eni client timing rounds deadline eni_id s).1
  unfolding poll_eni
  poll_eni-Seen zero deadline eni_id s h = cc
  poll_eni-Seen (suc rounds) deadline eni_id s h =
      poll_round-Seen deadline eni_id _ s (poll_eni-Seen rounds deadline eni_id) h

  -- When the wait succeeds, the last answer of EC2 showed the interface detached.
  pub wait_for_eni_available-SeenDetached :
      (eni_id : String) (s : Session World)
      → (wait_for_eni_available client timing eni_id s).0 ≡ ok tt
      → SeenDetached client eni_id (wait_for_eni_available client timing eni_id s).1.world
  unfolding wait_for_eni_available
  wait_for_eni_available-SeenDetached eni_id s =
      poll_eni-Seen (poll_rounds client timing) (client.now s.world + timing.eni_detach_timeout)
        eni_id s
