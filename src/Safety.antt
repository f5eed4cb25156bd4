-- ===== src/Safety.antt =====
-- The gates before a spawn, src/turbohaul/safety.py, over what the host's probes read. Sizes are
-- natural numbers, as the schemas of manifests and of the configuration have them; loads and
-- percentages are exact fractions.
pub mod Roomy
pub mod Fit
pub mod Admission
mod Examples
use southpaw_turbohaul.Base.{
  ℕ, zero, suc, ◌+◌, ◌-◌, ◌*◌, ◌/◌, max, String, Bool, true, false, not, ◌||◌, List, [], ◌∷◌,
  Option, none, some, nat_eq, ltb, if◌then◌else◌,
}
use southpaw_turbohaul.Base.Text.{lower}
use southpaw_turbohaul.Manifest.Validate.{find_key}

-- The text of a result, by what stands in it: why a gate passed, or what was compared with what.
pub data Detail : Type 0 where
  passed_no_probe passed_no_probe_second passed_zero_delta passed_insufficient_input : Detail
  compared : ℕ → ℕ → Detail

pub record GateResult : Type 0 where
  pub name : String
  pub ok : Bool
  pub detail : Detail

-- A fraction of natural numbers, `numerator / (denominator_less_one + 1)`.
pub record Fraction : Type 0 where
  pub numerator : ℕ
  pub denominator_less_one : ℕ

-- `a / b < q`
abbrev pub exceeds : Fraction → ℕ → ℕ → Bool
exceeds q a b = ltb (q.numerator * b) (a * suc q.denominator_less_one)

-- The readings: MemAvailable in KiB, the free memory of the GPU in MiB, at the first and at the
-- second query, the load of the last minute and the number of cores, and two samples of all jiffies
-- and those of iowait.
pub record Host : Type 0 where
  pub mem_available_kib : Option ℕ
  pub free_vram_mib : Option ℕ
  pub free_vram_mib_later : Option ℕ
  pub load1 : Option Fraction
  pub cpu_count : Option ℕ
  pub sample_a : Option (ℕ × ℕ)
  pub sample_b : Option (ℕ × ℕ)

abbrev pub passed : String → Detail → GateResult
passed name detail = record { name = name; ok = true; detail = detail }

-- Fails if `a < b`.
abbrev pub at_least : String → ℕ → ℕ → GateResult
at_least name a b = record { name = name; ok = not (ltb a b); detail = compared a b }

-- A gate by its reading: it passes without one.
abbrev pub on_probe : {A : Type 0} → String → (A → GateResult) → Option A → GateResult
on_probe name judge none = passed name passed_no_probe
on_probe name judge (some a) = judge a

unfoldable pub check_free_ram : Host → ℕ → GateResult
check_free_ram h min_free_mib =
    on_probe "ram" (λ avail_kib. at_least "ram" (avail_kib / 1024) min_free_mib) h.mem_available_kib

-- `os.cpu_count() or 1`
abbrev pub cores : Option ℕ → ℕ
cores none = 1
cores (some zero) = 1
cores (some (suc n)) = suc n

-- Fails if `a / b` exceeds the fraction.
abbrev pub at_most : String → Fraction → ℕ → ℕ → GateResult
at_most name q a b = record { name = name; ok = not (exceeds q a b); detail = compared a b }

abbrev pub judge_load : Option ℕ → Fraction → Fraction → GateResult
judge_load cpu_count max_per_core load =
    at_most "cpu_load" max_per_core load.numerator (cores cpu_count * suc load.denominator_less_one)

unfoldable pub check_load_avg : Host → Fraction → GateResult
check_load_avg h max_per_core = on_probe "cpu_load" (judge_load h.cpu_count max_per_core) h.load1

-- Of two samples: the counters of iowait and of all jiffies may go back; then nothing is judged.
abbrev pub judge_iowait : Fraction → ℕ × ℕ → ℕ × ℕ → GateResult
judge_iowait max_percent (total_a, iowait_a) (total_b, iowait_b) =
    if not (ltb total_a total_b)
    then passed "iowait" passed_zero_delta
    else at_most "iowait" max_percent (100 * (iowait_b - iowait_a)) (total_b - total_a)

abbrev pub judge_second : Fraction → Option (ℕ × ℕ) → ℕ × ℕ → GateResult
judge_second max_percent none a = passed "iowait" passed_no_probe_second
judge_second max_percent (some b) a = judge_iowait max_percent a b

unfoldable pub check_iowait : Host → Fraction → GateResult
check_iowait h max_percent = on_probe "iowait" (judge_second max_percent h.sample_b) h.sample_a

unfoldable pub check_free_vram : Host → ℕ → ℕ → GateResult
check_free_vram h min_free_mib manifest_expected_bytes =
    on_probe "vram"
      (λ free_mib. at_least "vram" free_mib (max min_free_mib (manifest_expected_bytes / 1048576)))
      h.free_vram_mib

-- `_KV_QUANT_SCALE`, in 400ths: 0.32 is 128, 0.1875 is 75.
abbrev pub kv_quant_scale : List (String × ℕ)
kv_quant_scale =
    ("f32", 800)
    ∷ ("f16", 400)
    ∷ ("bf16", 400)
    ∷ ("q8_0", 200)
    ∷ ("q4_0", 100)
    ∷ ("q4_1", 100)
    ∷ ("iq4_nl", 100)
    ∷ ("q5_0", 128)
    ∷ ("q5_1", 128)
    ∷ ("turbo2", 50)
    ∷ ("turbo3", 75)
    ∷ ("turbo4", 100)
    ∷ []

abbrev pub scale_or_one : Option ℕ → ℕ
scale_or_one none = 400
scale_or_one (some n) = n

unfoldable pub scale_of : String → ℕ
unfolding lower find_key
scale_of quant = scale_or_one (find_key (lower quant) kv_quant_scale)

-- What a token takes in the cache, in KiB, for a body of that many MiB.
abbrev pub kib_per_token : ℕ → ℕ → ℕ
kib_per_token gguf_mib scale = 9 * gguf_mib / 1024 * scale / 400

unfoldable pub estimate_kv_cache_mib : ℕ → ℕ → String → ℕ
estimate_kv_cache_mib ctx_size gguf_size_bytes kv_cache_quant =
    if nat_eq ctx_size 0 || nat_eq gguf_size_bytes 0
    then 0
    else kib_per_token (gguf_size_bytes / 1048576) (scale_of kv_cache_quant) * ctx_size / 1024

unfoldable pub check_kv_cache_fit : Host → ℕ → ℕ → ℕ → String → GateResult
check_kv_cache_fit h ctx_size gguf_size_bytes overhead_mib kv_cache_quant =
    if nat_eq ctx_size 0 || nat_eq gguf_size_bytes 0
    then passed "kv_cache_fit" passed_insufficient_input
    else on_probe "kv_cache_fit"
        (λ free_mib. at_least "kv_cache_fit" free_mib (
          gguf_size_bytes / 1048576
          + estimate_kv_cache_mib ctx_size gguf_size_bytes kv_cache_quant
          + overhead_mib))
        h.free_vram_mib_later

-- The keyword arguments of `all_safety_gates`.
pub record Limits : Type 0 where
  pub min_free_ram_mib : ℕ
  pub min_free_vram_mib : ℕ
  pub max_load_per_core : Fraction
  pub max_iowait_percent : Fraction
  pub manifest_expected_vram_bytes : ℕ
  pub ctx_size : ℕ
  pub gguf_size_bytes : ℕ
  pub kv_cache_overhead_mib : ℕ
  pub kv_cache_quant : String

unfoldable pub all_safety_gates : Host → Limits → List GateResult
all_safety_gates h l =
    check_free_ram h l.min_free_ram_mib
    ∷ check_free_vram h l.min_free_vram_mib l.manifest_expected_vram_bytes
    ∷ check_kv_cache_fit h l.ctx_size l.gguf_size_bytes l.kv_cache_overhead_mib l.kv_cache_quant
    ∷ check_load_avg h l.max_load_per_core
    ∷ check_iowait h l.max_iowait_percent
    ∷ []
