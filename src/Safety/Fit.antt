-- ===== src/Safety/Fit.antt =====
-- The estimate of the cache in src/turbohaul/safety.py.
use southpaw_turbohaul.Base.{
  ℕ, ◌+◌, ◌*◌, ◌/◌, ◌≤◌, ◌<◌, String, ◌≡◌, refl, Bool, true, false, not, ◌||◌, Option, none, some,
  nat_eq, ltb, arith, if◌then◌else◌,
}
use southpaw_turbohaul.Safety.{
  passed, passed_insufficient_input, on_probe, at_least, GateResult, Host, estimate_kv_cache_mib,
  check_kv_cache_fit, scale_of, kib_per_token,
}

times_mono : (k a b : ℕ) → a ≤ b → k * a / 1024 ≤ k * b / 1024
times_mono k a b h = grind arith

-- The estimate grows with the context.
estimate_mono :
    (ctx more gguf : ℕ) (quant : String)
    → ctx ≤ more
    → estimate_kv_cache_mib ctx gguf quant ≤ estimate_kv_cache_mib more gguf quant
unfolding estimate_kv_cache_mib
estimate_mono ctx more gguf quant h =
    let t = times_mono (kib_per_token (gguf / 1048576) (scale_of quant)) ctx more h in ground arith

-- A body for which a token takes less than a KiB counts as one without a cache, however long the
-- context is: at f16 every body below 114 MiB.
estimate_kv_cache_mib-small :
    (ctx gguf : ℕ) (quant : String)
    → 9 * (gguf / 1048576) / 1024 * scale_of quant < 400
    → estimate_kv_cache_mib ctx gguf quant ≡ 0
unfolding estimate_kv_cache_mib
estimate_kv_cache_mib-small ctx gguf quant h =
    go (nat_eq ctx 0 || nat_eq gguf 0) (kib_per_token (gguf / 1048576) (scale_of quant))
      (ground arith)
  where
    go : (b : Bool) (per_token : ℕ) → per_token ≡ 0 → (if b then 0 else per_token * ctx / 1024) ≡ 0
    go true per_token e = refl
    go false per_token e = rw e (omega arith)

-- On one host, a model that check_kv_cache_fit lets through with some context size is let through
-- with every smaller one.
check_kv_cache_fit-shrinks :
    (h : Host) (ctx more gguf overhead : ℕ) (quant : String)
    → ctx ≤ more
    → (check_kv_cache_fit h more gguf overhead quant).ok ≡ true
    → (check_kv_cache_fit h ctx gguf overhead quant).ok ≡ true
unfolding check_kv_cache_fit
check_kv_cache_fit-shrinks h ctx more gguf overhead quant less fits =
    go h.free_vram_mib_later (nat_eq ctx 0 || nat_eq gguf 0) (nat_eq more 0 || nat_eq gguf 0) refl
      refl fits
  where
    need : ℕ → ℕ
    need c = gguf / 1048576 + estimate_kv_cache_mib c gguf quant + overhead

    judged : ℕ → Bool → Option ℕ → GateResult
    judged c b r =
        if b
        then passed "kv_cache_fit" passed_insufficient_input
        else on_probe "kv_cache_fit" (λ free_mib. at_least "kv_cache_fit" free_mib (need c)) r

    below :
        (free body a b : ℕ)
        → a ≤ b
        → not (ltb free (body + b + overhead)) ≡ true
        → not (ltb free (body + a + overhead)) ≡ true
    below free body a b e k = ground arith

    more_free : (free : ℕ) → not (ltb free (need more)) ≡ true → not (ltb free (need ctx)) ≡ true
    more_free free k =
        let e = estimate_mono ctx more gguf quant less in
        below free (gguf / 1048576) (estimate_kv_cache_mib ctx gguf quant)
          (estimate_kv_cache_mib more gguf quant) e k

    go :
        (r : Option ℕ) (b c : Bool)
        → (nat_eq ctx 0 || nat_eq gguf 0) ≡ b
        → (nat_eq more 0 || nat_eq gguf 0) ≡ c
        → (judged more c r).ok ≡ true
        → (judged ctx b r).ok ≡ true
    go r true c e f k = refl
    go r false true e f k = absurd (ground arith)
    go none false false e f k = refl
    go (some free) false false e f k = more_free free k
