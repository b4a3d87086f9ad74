-- ===== src/Query/Like.antt =====
-- query.rs: `like_match`, a loop over two positions with one point to come back to.
use dbobj.Base.{
  ℕ, zero, suc, ◌+◌, ◌*◌, Bool, true, false, ◌||◌, Option, none, some, List, [], ◌∷◌, Text, ◌==◌,
  if◌then◌else◌, length, get_elem?, drop,
}
use dbobj.Core.Value.{Value, string}

-- The variables of the loop.
pub record LikeState : Type 0 where
  pub si : ℕ
  pub pi : ℕ
  pub match_si : ℕ
  pub match_pi : ℕ
  pub star : Bool

-- the characters `_` and `%`
abbrev pub underscore : ℕ
underscore = 95

abbrev pub percent : ℕ
percent = 37

-- the first test: the pattern has `_` or the same character
unfoldable pub matches_one : ℕ → Option ℕ → Bool
matches_one c none = false
matches_one c (some p) = (p == underscore) || (p == c)

unfoldable pub is_percent : Option ℕ → Bool
is_percent none = false
is_percent (some p) = p == percent

-- The body of the loop, with `c` the character at `si`; `none` is `return false`.
unfoldable pub like_step : ℕ → Text → LikeState → Option LikeState
unfolding matches_one is_percent
like_step c pat st =
    let p = get_elem? pat st.pi in
    if matches_one c p
    then some (record st { si = st.si + 1; pi = st.pi + 1 })
    else if is_percent p
    then some (record st { star = true; match_si = st.si; match_pi = st.pi; pi = st.pi + 1 })
    else if st.star
    then some (record st { si = st.match_si + 1; match_si = st.match_si + 1; pi = st.match_pi + 1 })
    else none

-- while pi < pat.len() && pat[pi] == '%' { pi += 1 }
unfoldable pub skip_percents : ℕ → List ℕ → ℕ
skip_percents pi [] = pi
skip_percents pi (c ∷ rest) = if c == percent then skip_percents (suc pi) rest else pi

unfoldable pub like_end : Text → LikeState → Bool
unfolding skip_percents
like_end pat st = skip_percents st.pi (drop st.pi pat) == length pat

-- The loop, on fuel; `none` is that the fuel has run out.
unfoldable pub like_loop : ℕ → Text → Text → LikeState → Option Bool
unfolding like_step like_end
like_loop zero s pat st = none
like_loop (suc fuel) s pat st = elim (get_elem? s st.si) [
  | none ↦ some (like_end pat st)
  | some c ↦ elim (like_step c pat st) [ none ↦ some false | some st' ↦ like_loop fuel s pat st' ]
]

abbrev pub like_start : LikeState
like_start = record { si = 0; pi = 0; match_si = 0; match_pi = 0; star = false }

-- Each round takes the pattern's position on, or the point to come back to.
unfoldable pub like_fuel : Text → Text → ℕ
like_fuel s pat = (length s + 2) * (length pat + 2)

unfoldable pub like_texts : Text → Text → Option Bool
unfolding like_loop like_fuel
like_texts s pat = like_loop (like_fuel s pat) s pat like_start

unfoldable pub like_match : {F : Type 0} → Value F → Value F → Bool
unfolding like_texts
like_match (string s) (string pat) = elim (like_texts s pat) [ none ↦ false | some b ↦ b ]
like_match _ _ = false
