-- ===== src/Subprocess/Polling.antt =====
-- The loops of src/turbohaul/subprocess_mgr.py that look at something until a deadline:
-- `while time.monotonic() < deadline`, with a look and a sleep in each round.
use southpaw_turbohaul.Base.{
  ℕ, zero, suc, ◌+◌, ◌≤◌, ◌<◌, ◌≡◌, refl, ◌∙◌, subst, ◌⊎◌, inl, inr, Bool, true, false, Option,
  none, some, ltb, arith, if◌then◌else◌,
}

equal_or_less : (i j : ℕ) → i ≤ j → (i ≡ j) ⊎ (i < j)
equal_or_less i j h = ground arith

-- In round i the clock reads `clock i`, and `look i` is what the round returns, if it does.
module _ {A : Type 0} (clock : ℕ → ℕ) (deadline : ℕ) (look : ℕ → Option A) where
  -- `none` if the fuel is out; `some none` if the deadline has passed.
  unfoldable pub poll : ℕ → ℕ → Option (Option A)
  poll zero i = none
  poll (suc fuel) i =
      let rest = poll fuel (suc i) in
      if ltb (clock i) deadline
      then elim (look i) [ some a ↦ some (some a) | none ↦ rest ]
      else some none

  -- From a round on, the rounds before another were made before the deadline and returned nothing.
  pub data Passed : ℕ → ℕ → Type 0 where
    at_once : {i : ℕ} → Passed i i
    passed : {i n : ℕ} → clock i < deadline → look i ≡ none → Passed (suc i) n → Passed i n

  -- How a loop ends: an answer in round n, before the deadline, or a round n past the deadline.
  abbrev pub EndsAt : ℕ → Option A → ℕ → Type 0
  EndsAt i (some a) n = Passed i n × (clock n < deadline) × (look n ≡ some a)
  EndsAt i none n = Passed i n × (deadline ≤ clock n)

  again :
      (i n : ℕ) (o : Option A)
      → clock i < deadline
      → look i ≡ none
      → EndsAt (suc i) o n
      → EndsAt i o n
  again i n (some a) early nothing (p, before, answer) = (passed early nothing p, before, answer)
  again i n none early nothing (p, late) = (passed early nothing p, late)

  one_round :
      (fuel i : ℕ) (o : Option A) (b : Bool) (l : Option A)
      → ((o : Option A) → poll fuel (suc i) ≡ some o → (n : ℕ) × EndsAt (suc i) o n)
      → ltb (clock i) deadline ≡ b
      → look i ≡ l
      → (if b then elim l [ some a ↦ some (some a) | none ↦ poll fuel (suc i) ] else some none)
        ≡ some o
      → (n : ℕ) × EndsAt i o n
  one_round fuel i none false l more early e same = (i, (at_once, ground arith))
  one_round fuel i (some a) false l more early e same = absurd (cc)
  one_round fuel i o true none more early e same =
      let (n, ends) = more o same in (n, again i n o (ground arith) e ends)
  one_round fuel i none true (some a) more early e same = absurd (cc)
  one_round fuel i (some b) true (some a) more early e same = (i, (at_once, ground arith, cc))

  no_fuel : (i : ℕ) (o : Option A) → poll zero i ≡ some o → ⊥
  unfolding poll
  no_fuel i o h = cc

  -- A loop that ends returns what the first round with an answer returns, or has met the deadline.
  pub poll-EndsAt : (fuel i : ℕ) (o : Option A) → poll fuel i ≡ some o → (n : ℕ) × EndsAt i o n
  poll-EndsAt zero i o h = absurd (no_fuel i o h)
  poll-EndsAt (suc fuel) i o h =
      one_round fuel i o (ltb (clock i) deadline) (look i) (poll-EndsAt fuel (suc i)) refl refl
        (unfold poll in h)

  poll-round :
      (fuel i : ℕ)
      → poll (suc fuel) i ≡ (
          if ltb (clock i) deadline
          then elim (look i) [ some a ↦ some (some a) | none ↦ poll fuel (suc i) ]
          else some none)
  unfolding poll
  poll-round fuel i = refl

  some_end :
      (rest : Option (Option A)) (o : Option A) (b : Bool) (l : Option A)
      → rest ≡ some o
      → (e : Option A) × ((if b then elim l [ some a ↦ some (some a) | none ↦ rest ] else some none)
          ≡ some e)
  some_end rest o false l h = (none, refl)
  some_end rest o true none h = (o, h)
  some_end rest o true (some a) h = (some a, refl)

  -- Enough fuel for the rounds that fit before the deadline, if the clock moves on in every round.
  pub poll_ends :
      ((i : ℕ) → clock i < clock (suc i))
      → (fuel i : ℕ) → deadline ≤ clock i + fuel
      → (o : Option A) × (poll (suc fuel) i ≡ some o)
  poll_ends up zero i h = unfold poll in (none, ground arith)
  poll_ends up (suc fuel) i h =
      let (o, more) = poll_ends up fuel (suc i) (omega (arith, up i)) in
      let (e, same) = some_end (poll (suc fuel) (suc i)) o (ltb (clock i) deadline) (look i) more in
      (e, poll-round (suc fuel) i ∙ same)

  pub Passed-none : (i n j : ℕ) → Passed i n → i ≤ j → j < n → look j ≡ none
  Passed-none i n j at_once a b = absurd (omega (arith, a, b))
  Passed-none i n j (passed early nothing p) a b = elim (equal_or_less i j a) [
    | inl same ↦ subst (λ k. look k ≡ none) same nothing
    | inr later ↦ Passed-none (suc i) n j p later b
  ]

-- A clock that moves on in every round never goes back.
pub grows :
    (clock : ℕ → ℕ) → ((i : ℕ) → clock i < clock (suc i)) → (i n : ℕ) → i ≤ n → clock i ≤ clock n
grows clock up i n h = elim (equal_or_less i n h) [
  | inl same ↦ subst (λ k. clock i ≤ clock k) same (itself (clock i))
  | inr less ↦ below n less
]
  where
    itself : (a : ℕ) → a ≤ a
    itself a = omega arith

    weaken : (a b : ℕ) → a < b → a ≤ b
    weaken a b h = omega arith

    joined : (a b c : ℕ) → a ≤ b → b < c → a ≤ c
    joined a b c h k = omega arith

    below : (n : ℕ) → i < n → clock i ≤ clock n
    below zero h = absurd (omega (arith, h))
    below (suc n) h = elim (equal_or_less i n (omega (arith, h))) [
      | inl same ↦
          weaken (clock i) (clock (suc n)) (subst (λ k. clock i < clock (suc k)) same (up i))
      | inr less ↦ joined (clock i) (clock n) (clock (suc n)) (below n less) (up n)
    ]
