-- ===== src/Subprocess/Health.antt =====
-- `health_check_once` and `wait_until_healthy` of src/turbohaul/subprocess_mgr.py.
use southpaw_turbohaul.Base.{
  ℕ, suc, ◌+◌, ◌≤◌, ◌<◌, ◌≡◌, refl, ◌⊎◌, inl, inr, ap, subst, Bool, true, false, List, [], ◌∷◌,
  Option, none, some, nat_eq, String, arith, if◌then◌else◌,
}
use southpaw_turbohaul.Base.Text.{lower, member}
use southpaw_turbohaul.Subprocess.Polling.{poll, Passed, EndsAt, poll-EndsAt, poll_ends}

-- The field "status" of a response: a text, a value that counts as false, or any other.
pub data StatusField : Type 0 where
  text : String → StatusField
  falsy other : StatusField

-- `r.json()` raises, or is no dict, or a dict with the field or without it.
pub data Body : Type 0 where
  no_json no_dict no_status : Body
  with_status : StatusField → Body

-- The request fails, or is answered with a status code.
pub data Response : Type 0 where
  unreachable : Response
  answered : ℕ → Body → Response

-- None, SchemaMismatch, or the dict.
pub data Checked : Type 0 where
  nothing mismatch : Checked
  healthy_as : StatusField → Checked

abbrev pub read_body : Body → Checked
read_body no_json = nothing
read_body no_dict = mismatch
read_body no_status = mismatch
read_body (with_status s) = healthy_as s

abbrev pub health_check_once : Response → Checked
health_check_once unreachable = nothing
health_check_once (answered code body) = if nat_eq code 200 then read_body body else nothing

abbrev pub health_ok_statuses : List String
health_ok_statuses = "ok" ∷ "ready" ∷ "healthy" ∷ "loaded" ∷ []

-- True, or one of the two exceptions: a status that is no text has no `lower`.
pub data Found : Type 0 where
  healthy schema_mismatch attribute_error : Found

unfoldable pub judge : Checked → Option Found
unfolding lower
judge nothing = none
judge mismatch = some schema_mismatch
judge (healthy_as (text s)) = if member (lower s) health_ok_statuses then some healthy else none
judge (healthy_as falsy) = none
judge (healthy_as other) = some attribute_error

-- The clock and the responses by round. `none` if the fuel is out; `some none` is False, at the
-- deadline.
unfoldable pub wait_until_healthy : ℕ → ℕ → ℕ → (ℕ → ℕ) → (ℕ → Response) → Option (Option Found)
unfolding judge poll
wait_until_healthy fuel timeout started clock response =
    poll clock (started + timeout) (λ i. judge (health_check_once (response i))) fuel 0

abbrev pub answer_of : (ℕ → Response) → ℕ → Option Found
answer_of response i = judge (health_check_once (response i))

-- The answers that end the wait, each with code 200: a status that counts as healthy, in any case;
-- no dict, or one without the field; a status that is not a text.
abbrev pub IsAnswer : Found → Response → Type 0
IsAnswer healthy r =
    (s : String) × (r ≡ answered 200 (with_status (text s)))
    × (member (lower s) health_ok_statuses ≡ true)
IsAnswer schema_mismatch r = (r ≡ answered 200 no_dict) ⊎ (r ≡ answered 200 no_status)
IsAnswer attribute_error r = r ≡ answered 200 (with_status other)

-- How a wait ends in round n: at the deadline, or with an answer before it.
abbrev pub HealthEnd : ℕ → (ℕ → ℕ) → (ℕ → Response) → ℕ → Option Found → Type 0
HealthEnd deadline clock response n none = deadline ≤ clock n
HealthEnd deadline clock response n (some f) = (clock n < deadline) × IsAnswer f (response n)

text_healthy :
    (f : Found) (b : Bool)
    → (if b then some healthy else none) ≡ some f
    → (healthy ≡ f) × (b ≡ true)
text_healthy f true h = (cc, refl)
text_healthy f false h = absurd (cc)

body-IsAnswer :
    (f : Found) (code : ℕ) (body : Body)
    → code ≡ 200
    → judge (read_body body) ≡ some f
    → IsAnswer f (answered code body)
unfolding judge
body-IsAnswer f code no_json c h = absurd (cc)
body-IsAnswer schema_mismatch code no_dict c h = inl (ap (λ k. answered k no_dict) c)
body-IsAnswer healthy code no_dict c h = absurd (cc)
body-IsAnswer attribute_error code no_dict c h = absurd (cc)
body-IsAnswer schema_mismatch code no_status c h = inr (ap (λ k. answered k no_status) c)
body-IsAnswer healthy code no_status c h = absurd (cc)
body-IsAnswer attribute_error code no_status c h = absurd (cc)
body-IsAnswer f code (with_status (text s)) c h =
    let (is, counts) = text_healthy f (member (lower s) health_ok_statuses) h in
    subst (λ k. IsAnswer k (answered code (with_status (text s)))) is
      (s, ap (λ k. answered k (with_status (text s))) c, counts)
body-IsAnswer f code (with_status falsy) c h = absurd (cc)
body-IsAnswer attribute_error code (with_status other) c h =
    ap (λ k. answered k (with_status other)) c
body-IsAnswer healthy code (with_status other) c h = absurd (cc)
body-IsAnswer schema_mismatch code (with_status other) c h = absurd (cc)

judge-IsAnswer : (f : Found) (r : Response) → judge (health_check_once r) ≡ some f → IsAnswer f r
unfolding judge
judge-IsAnswer f unreachable h = absurd (cc)
judge-IsAnswer f (answered code body) h = go (nat_eq code 200) refl h
  where
    go :
        (b : Bool)
        → nat_eq code 200 ≡ b
        → judge (if b then read_body body else nothing) ≡ some f
        → IsAnswer f (answered code body)
    go true e h = body-IsAnswer f code body (ground arith) h
    go false e h = absurd (cc)

-- wait_until_healthy returns within as many rounds as the time-out has ticks, and one, if the clock
-- moves on. It returns True only for a healthy answer before the deadline, raises only for an answer
-- of another shape than expected, and returns False only at the deadline; the rounds before brought
-- no answer that ends the wait.
pub wait_until_healthy-first :
    (timeout started : ℕ) (clock : ℕ → ℕ) (response : ℕ → Response)
    → started ≤ clock 0
    → ((i : ℕ) → clock i < clock (suc i))
    → (o : Option Found) × (n : ℕ) × (wait_until_healthy
          (suc timeout)
          timeout
          started
          clock
          response
        ≡ some o)
      × Passed clock (started + timeout) (answer_of response) 0 n
      × HealthEnd (started + timeout) clock response n o
unfolding wait_until_healthy
wait_until_healthy-first timeout started clock response begun up =
    let (o, polled) =
      poll_ends clock (started + timeout) (answer_of response) up timeout 0
        (omega (arith, begun)) in
    go o polled
      (poll-EndsAt clock (started + timeout) (answer_of response) (suc timeout) 0 o polled)
  where
    go :
        (o : Option Found)
        → poll clock (started + timeout) (answer_of response) (suc timeout) 0 ≡ some o
        → (n : ℕ) × EndsAt clock (started + timeout) (answer_of response) 0 o n
        → (o : Option Found) × (n : ℕ) × (poll clock
              (started + timeout)
              (answer_of response)
              (suc timeout)
              0
            ≡ some o)
          × Passed clock (started + timeout) (answer_of response) 0 n
          × HealthEnd (started + timeout) clock response n o
    go none polled (n, (p, late)) = (none, n, polled, p, late)
    go (some f) polled (n, (p, early, answer)) =
        (some f, n, polled, p, (early, judge-IsAnswer f (response n) answer))
