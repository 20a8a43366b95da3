-- ===== src/Poll/Counts.antt =====
-- internal/core/poll.go: how many events a poll reports, and of which subscriptions.
use wasi.Prelude.{
  ◌≡◌, refl, subst, ap, ℕ, zero, suc, ◌+◌, ◌≤◌, ◌<◌, ◌^◌, List, [], ◌∷◌, Bool, true, false, Option,
  none, some, length, All, arith, if◌then◌else◌,
}
use wasi.Memory.{Mem, le32, put_le32}
use wasi.Memory.Laws.{le32-put_le32}
use wasi.Table.{FsState}
use wasi.Exec.{
  Machine, Exec, Plugin, Params, Result, ok, err, exit, unfinished, u32, continue, ◌>>=◌, ◌>>◌,
  store,
}
use wasi.Exec.Keeps.{Keeps}
use wasi.Exec.Gives.{
  Gives, Value, Gives-pure, Gives-go_on, Gives-then, Gives-next, Gives-bind-Gives,
}
use wasi.Poll.{PollSubscription, parse_loop, ready_subscriptions}
use wasi.Poll.Oneoff.{Round, measure, retry, wait_round, poll_loop, report, poll_until, poll_oneoff}

abbrev Anything : FsState → Mem → Type 0
Anything fs mem = Unit

module _ {W A : Type 0} where
  Keeps-any : (m : Exec W A) → Keeps Anything m
  Keeps-any m = record { at = λ s h. tt }

-- The indices from `i` to below `i + n`.
abbrev Between : ℕ → ℕ → List ℕ → Type 0
Between i n = All (λ j. (i ≤ j) × (j < i + n))

widen : (i n : ℕ) (ready : List ℕ) → Between (suc i) n ready → Between i (suc n) ready
widen i n [] h = tt
widen i n (j ∷ ready) h = (omega (arith, h.0), widen i n ready h.1)

-- The result of checking `n` subscriptions, the first of which has the index `i`.
abbrev IsListing : ℕ → ℕ → List PollSubscription × List ℕ → Type 0
IsListing i n r = (length r.0 ≡ n) × (length r.1 ≤ n) × Between i n r.1

add-IsListing :
    (i n : ℕ) (b : Bool) (sub : PollSubscription) (subs : List PollSubscription) (ready : List ℕ)
    → IsListing (suc i) n (subs, ready)
    → IsListing i (suc n) (sub ∷ subs, if b then i ∷ ready else ready)
add-IsListing i n true sub subs ready (l, few, at) =
    (ap suc l, omega (arith, few), (omega arith, widen i n ready at))
add-IsListing i n false sub subs ready (l, few, at) =
    (ap suc l, omega (arith, few), widen i n ready at)

-- What holds of the memory after a call that succeeds.
record Ends {W A : Type 0} (P : Mem → Type 0) (m : Exec W A) : Type 0 where
  at : (s : Machine W) (a : A) → (m s).0 ≡ ok a → P (m s).1.mem

module _ {W A B : Type 0} {R : A → Type 0} {P : Mem → Type 0} where
  continue-Ends :
      (r : Result A) (f : A → Exec W B) (s : Machine W) (b : B)
      → ((a : A) → R a → Ends P (f a))
      → Value R r
      → (continue r f s).0 ≡ ok b
      → P (continue r f s).1.mem
  continue-Ends (ok a) f s b kf v h = (kf a v).at s b h
  continue-Ends (err code) f s b kf v h = cc
  continue-Ends (exit code) f s b kf v h = cc
  continue-Ends unfinished f s b kf v h = cc

  Ends-bind :
      (m : Exec W A) (f : A → Exec W B)
      → Gives Anything R m
      → ((a : A) → R a → Ends P (f a))
      → Ends P (m >>= f)
  unfolding ◌>>=◌
  Ends-bind m f km kf = record { at = λ s b. continue-Ends (m s).0 f (m s).1 b kf (km.at s tt).1 }

told : {A : Type 0} (r : Result A) → Value (λ (a : A). Unit {0}) r
told (ok a) = tt
told (err code) = tt
told (exit code) = tt
told unfinished = tt

no_more : {W A : Type 0} (m : Exec W A) → Gives Anything (λ (a : A). Unit {0}) m
no_more m = record { at = λ s h. (tt, told (m s).0) }

module _ {W A B : Type 0} {P : Mem → Type 0} where
  Ends-next : (m : Exec W A) (n : Exec W B) → Ends P n → Ends P (m >> n)
  unfolding ◌>>◌
  Ends-next m n kn = Ends-bind m (λ _. n) (no_more m) (λ _ _. kn)

-- The word at `at` counts from 1 to `n`.
abbrev pub CountsTo : ℕ → ℕ → Mem → Type 0
CountsTo n at mem = (count : ℕ) × (le32 mem at ≡ some count) × (1 ≤ count) × (count ≤ n)

after_put :
    {W : Type 0} (n at count : ℕ) (s : Machine W) (a : Unit {0}) (o : Option Mem)
    → 1 ≤ count
    → count ≤ n
    → n < 2 ^ 32
    → put_le32 s.mem at (u32 count) ≡ o
    → (store (λ _. o) s).0 ≡ ok a
    → CountsTo n at (store (λ _. o) s).1.mem
unfolding store
after_put n at count s a none one few small e h = cc
after_put n at count s a (some mem) one few small e h =
    (u32 count, le32-put_le32 s.mem at (u32 count) mem (omega arith) e, omega arith, omega arith)

Ends-store :
    {W : Type 0} (n at count : ℕ)
    → 1 ≤ count
    → count ≤ n
    → n < 2 ^ 32
    → Ends {W = W} (CountsTo n at) (store (λ m. put_le32 m at (u32 count)))
unfolding store
Ends-store n at count one few small = record {
  at = λ s a. after_put n at count s a (put_le32 s.mem at (u32 count)) one few small refl;
}

module _ {W : Type 0} (e : Plugin W) where
  parse_loop-Gives :
      (n at : ℕ) (earliest : Option ℕ)
      → Gives Anything (λ r. length r.0 ≡ n) (parse_loop e n at earliest)
  unfolding parse_loop
  parse_loop-Gives zero at earliest = Gives-pure _ refl
  parse_loop-Gives (suc n) at earliest = Gives-then _ _ (Keeps-any _) (λ mem.
      Gives-then _ _ (Keeps-any _) (λ sub.
        Gives-bind-Gives _ _ (parse_loop-Gives n (at + 48) _)
          (λ r same. Gives-pure _ (ap suc same))))

  ready_subscriptions-Gives :
      (i : ℕ) (subs : List PollSubscription) (elapsed : ℕ)
      → Gives Anything (IsListing i (length subs)) (ready_subscriptions e i subs elapsed)
  unfolding ready_subscriptions
  ready_subscriptions-Gives i [] elapsed = Gives-pure _ (refl, omega arith, tt)
  ready_subscriptions-Gives i (sub ∷ subs) elapsed =
      Gives-then _ _ (Keeps-any _) (λ (c : PollSubscription × Bool).
        Gives-bind-Gives _ _ (ready_subscriptions-Gives (suc i) subs elapsed)
          (λ (r : List PollSubscription × List ℕ) listing.
            Gives-pure _ (add-IsListing i (length subs) c.1 c.0 r.0 r.1 listing)))

  abbrev IsRound : ℕ → Round → Type 0
  IsRound n r = IsListing 0 n (r.subs, r.ready)

  measure-Gives :
      (subs : List PollSubscription) (elapsed measured_at : ℕ)
      → Gives Anything (IsRound (length subs)) (measure e subs elapsed measured_at)
  unfolding measure
  measure-Gives subs elapsed measured_at = Gives-then _ _ (Keeps-any _) (λ (c : ℕ × ℕ).
      Gives-bind-Gives _ _ (ready_subscriptions-Gives 0 subs c.0)
        (λ (r : List PollSubscription × List ℕ) listing. Gives-pure _ listing))

  retry-Gives :
      (n : ℕ) (earliest : Option ℕ) (round : Round) (ready : List ℕ)
      → IsRound n round
      → Gives Anything (IsRound n) (retry e earliest round ready)
  unfolding retry
  retry-Gives n earliest round [] h =
      subst (λ k. Gives Anything (IsRound k) (retry e earliest round [])) h.0
        (Gives-next _ _ (Keeps-any _) (measure-Gives round.subs round.elapsed round.measured_at))
  retry-Gives n earliest round (i ∷ ready) h = Gives-pure _ h

  wait_round-Gives :
      (n : ℕ) (earliest : Option ℕ) (round : Round)
      → IsRound n round
      → Gives Anything (IsRound n) (wait_round e earliest round)
  unfolding wait_round
  wait_round-Gives n earliest round h = Gives-then _ _ (Keeps-any _) (λ error.
      Gives-next _ _ (Keeps-any _) (
        Gives-bind-Gives _ _
          (subst
            (λ k. Gives Anything (IsRound k) (measure e round.subs round.elapsed round.measured_at))
            h.0 (measure-Gives round.subs round.elapsed round.measured_at))
          (λ (woken : Round) w. retry-Gives n earliest woken woken.ready w)))

  -- A round that ends the poll: something is ready.
  abbrev IsReport : ℕ → Round → Type 0
  IsReport n r = IsRound n r × (1 ≤ length r.ready)

  poll_loop-Gives :
      (rounds n : ℕ) (earliest : Option ℕ) (round : Round) (ready : List ℕ)
      → round.ready ≡ ready
      → IsRound n round
      → Gives Anything (IsReport n) (poll_loop e rounds earliest round ready)
  unfolding poll_loop
  poll_loop-Gives zero n earliest round (i ∷ ready) same h =
      Gives-pure _ (h, omega (arith, ap length same))
  poll_loop-Gives (suc rounds) n earliest round (i ∷ ready) same h =
      Gives-pure _ (h, omega (arith, ap length same))
  poll_loop-Gives zero n earliest round [] same h = Gives-go_on
  poll_loop-Gives (suc rounds) n earliest round [] same h =
      Gives-bind-Gives _ _ (wait_round-Gives n earliest round h)
        (λ (next : Round) w. poll_loop-Gives rounds n earliest next next.ready refl w)

  poll_until-Gives :
      (rounds : ℕ) (subs : List PollSubscription) (earliest : Option ℕ)
      → Gives Anything (IsReport (length subs)) (poll_until e rounds subs earliest)
  unfolding poll_until
  poll_until-Gives rounds subs earliest = Gives-then _ _ (Keeps-any _) (λ now.
      Gives-bind-Gives _ _ (ready_subscriptions-Gives 0 subs 0)
        (λ (r : List PollSubscription × List ℕ) listing.
          poll_loop-Gives rounds (length subs) earliest _ r.1 refl listing))

  report-Ends :
      (out n result : ℕ) (round : Round)
      → IsReport n round
      → n < 2 ^ 32
      → Ends (CountsTo n result) (report e out n result round)
  unfolding report
  report-Ends out n result round h small =
      Ends-next _ _ (Ends-next _ _ (Ends-store n result (length round.ready) h.1 h.0.1 small))

  poll_oneoff-Ends :
      (rounds : ℕ) (p : Params) → Ends (CountsTo (u32 (p 2)) (u32 (p 3))) (poll_oneoff e rounds p)
  unfolding poll_oneoff
  poll_oneoff-Ends rounds p = Ends-next _ _ (
      Ends-bind _ _ (parse_loop-Gives (u32 (p 2)) (u32 (p 0)) none)
        (λ (r : List PollSubscription × Option ℕ) same.
          Ends-bind _ _ (poll_until-Gives rounds r.0 r.1) (λ (round : Round) ready.
            report-Ends (u32 (p 1)) (u32 (p 2)) (u32 (p 3)) round
              (subst (λ k. IsReport k round) same ready) (omega arith))))

  -- A poll that succeeds has waited until something was ready: the count that it leaves in the
  -- guest's memory is at least 1, and at most the number of subscriptions.
  pub poll_oneoff-counts :
      (rounds : ℕ) (p : Params) (s : Machine W)
      → (poll_oneoff e rounds p s).0 ≡ ok tt
      → (count : ℕ) × (le32 (poll_oneoff e rounds p s).1.mem (u32 (p 3)) ≡ some count)
        × (1 ≤ count)
        × (count ≤ u32 (p 2))
  poll_oneoff-counts rounds p s h = (poll_oneoff-Ends rounds p).at s tt h
