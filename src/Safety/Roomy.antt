-- ===== src/Safety/Roomy.antt =====
-- What the gates of src/turbohaul/safety.py let through.
use southpaw_turbohaul.Base.{
  ℕ, suc, ◌+◌, ◌-◌, ◌*◌, ◌/◌, ◌≤◌, max, String, ◌≡◌, refl, ◌↔◌, ◌⊎◌, inl, inr, Bool, true, false,
  not, ◌||◌, Option, none, some, nat_eq, ltb, arith, All, if◌then◌else◌,
}
use southpaw_turbohaul.Safety.{
  on_probe, judge_second, judge_load, GateResult, passed, passed_zero_delta, at_least, at_most,
  passed_insufficient_input, Fraction, Host, cores, check_free_ram, check_load_avg, judge_iowait,
  check_iowait, check_free_vram, estimate_kv_cache_mib, check_kv_cache_fit, Limits,
  all_safety_gates,
}

-- A reading is as it has to be, or there is none.
abbrev pub Reads : {A : Type 0} → (A → Type 0) → Option A → Type 0
Reads P none = Unit
Reads P (some a) = P a

-- `a / b` is at most the fraction.
abbrev pub IsAtMost : Fraction → ℕ → ℕ → Type 0
IsAtMost q a b = a * suc q.denominator_less_one ≤ q.numerator * b

-- The share of iowait between two samples, in percent, where the clock of jiffies has moved.
abbrev pub IowaitAtMost : Fraction → ℕ × ℕ → ℕ × ℕ → Type 0
IowaitAtMost q (total_a, iowait_a) (total_b, iowait_b) =
    (total_b ≤ total_a) ⊎ IsAtMost q (100 * (iowait_b - iowait_a)) (total_b - total_a)

-- The body, the cache and the overhead fit the free memory, if the sizes are known.
abbrev pub KvFits : Limits → ℕ → Type 0
KvFits l free_mib =
    ((l.ctx_size ≡ 0) ⊎ (l.gguf_size_bytes ≡ 0))
    ⊎ ((l.gguf_size_bytes / 1048576
          + estimate_kv_cache_mib l.ctx_size l.gguf_size_bytes l.kv_cache_quant
          + l.kv_cache_overhead_mib
        ≤ free_mib))

-- What each gate asks for, of the readings that there are.
abbrev pub IsRoomy : Host → Limits → Type 0
IsRoomy h l =
    Reads (λ kib. l.min_free_ram_mib ≤ kib / 1024) h.mem_available_kib
    × Reads (λ free. max l.min_free_vram_mib (l.manifest_expected_vram_bytes / 1048576) ≤ free)
        h.free_vram_mib
    × Reads (KvFits l) h.free_vram_mib_later
    × Reads
        (λ (load : Fraction).
          IsAtMost l.max_load_per_core load.numerator
            (cores h.cpu_count * suc load.denominator_less_one))
        h.load1
    × Reads (λ a. Reads (IowaitAtMost l.max_iowait_percent a) h.sample_b) h.sample_a

not_below : (a b : ℕ) → (not (ltb a b) ≡ true) ↔ (b ≤ a)
not_below a b = (λ h. ground arith, λ h. ground arith)

-- A gate on a probe asks for what its judge asks for.
on_probe_iff :
    {A : Type 0} (name : String) (judge : A → GateResult) (P : A → Type 0)
    → ((a : A) → ((judge a).ok ≡ true) ↔ P a)
    → (r : Option A) → ((on_probe name judge r).ok ≡ true) ↔ Reads P r
on_probe_iff name judge P each none = (λ h. tt, λ h. refl)
on_probe_iff name judge P each (some a) = each a

iowait_iff : (q : Fraction) (a b : ℕ × ℕ) → ((judge_iowait q a b).ok ≡ true) ↔ IowaitAtMost q a b
iowait_iff q (total_a, iowait_a) (total_b, iowait_b) = go (ltb total_a total_b) refl
  where
    share : ℕ
    share = 100 * (iowait_b - iowait_a)

    within :
        (((at_most "iowait" q share (total_b - total_a)).ok ≡ true)
          ↔ IsAtMost q share (total_b - total_a))
    within = not_below (q.numerator * (total_b - total_a)) (share * suc q.denominator_less_one)

    go :
        (moved : Bool)
        → ltb total_a total_b ≡ moved
        → ((if not moved
              then passed "iowait" passed_zero_delta
              else at_most "iowait" q share (total_b - total_a)).ok
            ≡ true)
          ↔ IowaitAtMost q (total_a, iowait_a) (total_b, iowait_b)
    go false e = (λ h. inl (ground arith), λ h. refl)
    go true e = (
      λ h. inr (within.0 h),
      λ h. elim h [ inl back ↦ absurd (ground arith) | inr low ↦ within.1 low ],
    )

second_iff :
    (q : Fraction) (b : Option (ℕ × ℕ)) (a : ℕ × ℕ)
    → ((judge_second q b a).ok ≡ true) ↔ Reads (IowaitAtMost q a) b
second_iff q none a = (λ h. tt, λ h. refl)
second_iff q (some b) a = iowait_iff q a b

whatever : {A : Type 0} (P : A → Type 0) → ((a : A) → P a) → (r : Option A) → Reads P r
whatever P every none = tt
whatever P every (some a) = every a

kv_iff :
    (h : Host) (l : Limits)
    → ((check_kv_cache_fit h l.ctx_size l.gguf_size_bytes l.kv_cache_overhead_mib
          l.kv_cache_quant).ok
        ≡ true)
      ↔ Reads (KvFits l) h.free_vram_mib_later
unfolding check_kv_cache_fit
kv_iff h l = go (nat_eq l.ctx_size 0 || nat_eq l.gguf_size_bytes 0) refl
  where
    need : ℕ
    need =
        l.gguf_size_bytes / 1048576
        + estimate_kv_cache_mib l.ctx_size l.gguf_size_bytes l.kv_cache_quant
        + l.kv_cache_overhead_mib

    unknown :
        (nat_eq l.ctx_size 0 || nat_eq l.gguf_size_bytes 0) ≡ true
        → (l.ctx_size ≡ 0) ⊎ (l.gguf_size_bytes ≡ 0)
    unknown e = ground arith

    go :
        (b : Bool)
        → (nat_eq l.ctx_size 0 || nat_eq l.gguf_size_bytes 0) ≡ b
        → ((if b
              then passed "kv_cache_fit" passed_insufficient_input
              else on_probe "kv_cache_fit"
                  (λ free_mib. at_least "kv_cache_fit" free_mib need)
                  h.free_vram_mib_later).ok
            ≡ true)
          ↔ Reads (KvFits l) h.free_vram_mib_later
    go true e =
        (λ k. whatever (KvFits l) (λ free. inl (unknown e)) h.free_vram_mib_later, λ k. refl)
    go false e =
        on_probe_iff "kv_cache_fit" (λ free_mib. at_least "kv_cache_fit" free_mib need) (KvFits l)
          (λ free. (
            λ k. inr ((not_below free need).0 k),
            λ k. elim k [
              | inl unknown_size ↦ absurd (ground arith)
              | inr fits ↦ (not_below free need).1 fits
            ],
          ))
          h.free_vram_mib_later

-- All gates pass exactly if the host has room by every reading that there is: memory; memory of the
-- GPU, as first read, over both the floor and the manifest's number, and, as read again, over the
-- model with its cache and the overhead; load per core; and iowait. A reading that is missing asks for
-- nothing.
pub all_safety_gates_iff :
    (h : Host) (l : Limits)
    → All (λ (g : GateResult). g.ok ≡ true) (all_safety_gates h l) ↔ IsRoomy h l
unfolding all_safety_gates check_free_ram check_free_vram check_load_avg check_iowait
all_safety_gates_iff h l =
    let ram =
      on_probe_iff "ram" (λ kib. at_least "ram" (kib / 1024) l.min_free_ram_mib)
        (λ kib. l.min_free_ram_mib ≤ kib / 1024) (λ kib. not_below (kib / 1024) l.min_free_ram_mib)
        h.mem_available_kib in
    let floor : ℕ = max l.min_free_vram_mib (l.manifest_expected_vram_bytes / 1048576) in
    let vram =
      on_probe_iff "vram" (λ free. at_least "vram" free floor) (λ free. floor ≤ free)
        (λ free. not_below free floor) h.free_vram_mib in
    let load =
      on_probe_iff "cpu_load" (judge_load h.cpu_count l.max_load_per_core)
        (λ (load : Fraction).
          IsAtMost l.max_load_per_core load.numerator
            (cores h.cpu_count * suc load.denominator_less_one))
        (λ load. not_below _ _) h.load1 in
    let io =
      on_probe_iff "iowait" (judge_second l.max_iowait_percent h.sample_b)
        (λ a. Reads (IowaitAtMost l.max_iowait_percent a) h.sample_b)
        (second_iff l.max_iowait_percent h.sample_b) h.sample_a in
    let kv = kv_iff h l in
    (
      λ k. (ram.0 k.0, vram.0 k.1.0, kv.0 k.1.1.0, load.0 k.1.1.1.0, io.0 k.1.1.1.1.0),
      λ k. (ram.1 k.0, (vram.1 k.1, (kv.1 k.2, (load.1 k.3, (io.1 k.4, tt))))),
    )
