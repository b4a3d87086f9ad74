-- ===== src/Query/Termination.antt =====
-- query.rs: the rounds of the loop of `like_match`.
use mathlib.Core.Path.{subst}
use dbobj.Base.{
  ℕ, zero, suc, ◌+◌, ◌-◌, ◌*◌, ◌<◌, ◌≤◌, ◌≡◌, ◌⊎◌, sym, inl, inr, arith, Bool, Bool-cases, true,
  false, some, Option-cases, Text, if◌then◌else◌, length, get_elem?, lt_of_get_elem?,
}
use dbobj.Query.Like.{
  LikeState, matches_one, is_percent, like_step, like_loop, like_end, like_start, like_fuel,
  like_texts,
}

-- the rounds that may be left to come back
abbrev retries : Text → LikeState → ℕ
retries s st = if st.star then length s - st.match_si else length s + 1

abbrev measure : Text → Text → LikeState → ℕ
measure s pat st = retries s st * (length pat + 1) + (length pat - st.pi)

record InRange (s pat : Text) (st : LikeState) : Type 0 where
  pi_le : st.pi ≤ length pat
  match_pi_lt : st.star ≡ true → st.match_pi < length pat
  match_si_le : st.star ≡ true → st.match_si ≤ st.si

less_tries : (a b w p q : ℕ) → a < b → p < w → a * w + p < b * w + q
less_tries a b w p q h k = grind arith

same_tries : (a b w p q : ℕ) → a ≤ b → p < q → a * w + p < b * w + q
same_tries a b w p q h k = grind arith

one_inside :
    (c : ℕ) (pat : Text) (pi : ℕ) → matches_one c (get_elem? pat pi) ≡ true → pi < length pat
unfolding matches_one
one_inside c pat pi h = elim (Option-cases (get_elem? pat pi)) [
  | inl e ↦ absurd (ground (arith, e, h))
  | inr (p, e) ↦ lt_of_get_elem? pat pi e
]

percent_inside : (pat : Text) (pi : ℕ) → is_percent (get_elem? pat pi) ≡ true → pi < length pat
unfolding is_percent
percent_inside pat pi h = elim (Option-cases (get_elem? pat pi)) [
  | inl e ↦ absurd (ground (arith, e, h))
  | inr (p, e) ↦ lt_of_get_elem? pat pi e
]

-- the three ways in which a round goes on
step-cases :
    (c : ℕ) (pat : Text) (st st' : LikeState)
    → like_step c pat st ≡ some st'
    → ((st.pi < length pat) × (st' ≡ record st { si = st.si + 1; pi = st.pi + 1 }))
      ⊎ (((st.pi < length pat)
            × (st' ≡ record st { star = true; match_si = st.si; match_pi = st.pi; pi = st.pi + 1 }))
          ⊎ ((st.star ≡ true)
              × (st' ≡ record st {
                si = st.match_si + 1;
                match_si = st.match_si + 1;
                pi = st.match_pi + 1;
              })))
unfolding like_step
step-cases c pat st st' h = elim (Bool-cases (matches_one c (get_elem? pat st.pi))) [
  | inl m ↦ inl (one_inside c pat st.pi m, ground (arith, h, m))
  | inr n ↦ elim (Bool-cases (is_percent (get_elem? pat st.pi))) [
    | inl m ↦ inr (inl (percent_inside pat st.pi m, ground (arith, h, n, m)))
    | inr n' ↦ elim (Bool-cases st.star) [
      | inl m ↦ inr (inr (m, ground (arith, h, n, n', m)))
      | inr m ↦ absurd (ground (arith, h, n, n', m))
    ]
  ]
]

module _ (s pat : Text) (st : LikeState) (r : InRange s pat st) (inside : st.si < length s) where
  forward :
      (st.pi < length pat)
      → (let st' : LikeState = record st { si = st.si + 1; pi = st.pi + 1 } in
          InRange s pat st' × (measure s pat st' < measure s pat st))
  forward h = (
    record {
      pi_le = omega arith;
      match_pi_lt = r.match_pi_lt;
      match_si_le = λ q. omega (arith, r.match_si_le q);
    },
    same_tries _ _ (length pat + 1) _ _ (omega arith) (omega arith),
  )

  mark :
      (st.pi < length pat)
      → (let st' : LikeState = record st {
        star = true;
        match_si = st.si;
        match_pi = st.pi;
        pi = st.pi + 1;
      } in
          InRange s pat st' × (measure s pat st' < measure s pat st))
  mark h = (
    record { pi_le = omega arith; match_pi_lt = λ _. h; match_si_le = λ q. omega arith },
    same_tries _ _ (length pat + 1) _ _ (ground (arith, r.match_si_le)) (omega arith),
  )

  again :
      st.star ≡ true
      → (let st' : LikeState = record st {
        si = st.match_si + 1;
        match_si = st.match_si + 1;
        pi = st.match_pi + 1;
      } in
          InRange s pat st' × (measure s pat st' < measure s pat st))
  again q = (
    record {
      pi_le = omega (arith, r.match_pi_lt q);
      match_pi_lt = r.match_pi_lt;
      match_si_le = λ q. omega arith;
    },
    less_tries _ _ (length pat + 1) _ _ (ground (arith, r.match_si_le q))
        (ground (arith, r.match_pi_lt q)),
  )

  step-InRange :
      (c : ℕ) (st' : LikeState)
      → like_step c pat st ≡ some st'
      → InRange s pat st' × (measure s pat st' < measure s pat st)
  step-InRange c st' h = elim (step-cases c pat st st' h) [
    | inl a ↦ subst Next (sym a.1) (forward a.0)
    | inr (inl b) ↦ subst Next (sym b.1) (mark b.0)
    | inr (inr d) ↦ subst Next (sym d.1) (again d.0)
  ]
    where
      Next : LikeState → Type 0
      Next x = InRange s pat x × (measure s pat x < measure s pat st)

like_loop-ends :
    (fuel : ℕ) (s pat : Text) (st : LikeState)
    → InRange s pat st
    → measure s pat st < fuel
    → (b : Bool) × (like_loop fuel s pat st ≡ some b)
unfolding like_loop
like_loop-ends zero s pat st r h = absurd (omega arith)
like_loop-ends (suc fuel) s pat st r h = elim (Option-cases (get_elem? s st.si)) [
  | inl e ↦ (like_end pat st, ground (arith, e))
  | inr (c, e) ↦ elim (Option-cases (like_step c pat st)) [
    | inl q ↦ (false, ground (arith, e, q))
    | inr (st', q) ↦
        let (r', m) = step-InRange s pat st r (lt_of_get_elem? s st.si e) c st' q in
        let (b, p) = like_loop-ends fuel s pat st' r' (omega arith) in (b, ground (arith, e, q, p))
  ]
]

-- The loop of `like_match` ends on every text and every pattern within (length s + 2) * (length pat
-- + 2) rounds.
pub like_texts-ends : (s pat : Text) → (b : Bool) × (like_texts s pat ≡ some b)
unfolding like_texts like_fuel
like_texts-ends s pat =
    like_loop-ends _ s pat like_start
      (record { pi_le = omega arith; match_pi_lt = λ q. cc q; match_si_le = λ q. cc q })
      (enough (length s) (length pat))
  where
    enough : (a b : ℕ) → (a + 1) * (b + 1) + (b - 0) < (a + 2) * (b + 2)
    enough a b = grind arith
