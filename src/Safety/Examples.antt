-- ===== src/Safety/Examples.antt =====
-- Tests on the gates of src/turbohaul/safety.py, and concrete cases of what is promised of them.
use southpaw_turbohaul.Base.{◌≡◌, ◌↔◌, refl, true, All, [], ◌∷◌, some}
use southpaw_turbohaul.Base.Int.{pos}
use southpaw_turbohaul.Manifest.Value.{int, text}
use southpaw_turbohaul.Manifest.Validate.{find_key}
use southpaw_turbohaul.Manifest.Store.{Manifest}
use southpaw_turbohaul.Safety.{
  GateResult, Host, Limits, estimate_kv_cache_mib, all_safety_gates, scale_of, check_free_ram,
  check_free_vram, check_kv_cache_fit, check_load_avg, check_iowait,
}
use southpaw_turbohaul.Safety.Roomy.{IsRoomy, all_safety_gates_iff}
use southpaw_turbohaul.Safety.Admission.{SafetyConfig, limits_of}

-- A GPU with 24000 MiB free, and less when it is asked again, half of the load of four cores, and little iowait.
abbrev host : Host
host = record {
  mem_available_kib = some 16777216;
  free_vram_mib = some 24000;
  free_vram_mib_later = some 23900;
  load1 = some (record { numerator = 5; denominator_less_one = 1 });
  cpu_count = some 4;
  sample_a = some (1000, 10);
  sample_b = some (1160, 11);
}

-- A body of 17 GiB with a context of 32768.
abbrev limits : Limits
limits = record {
  min_free_ram_mib = 2048;
  min_free_vram_mib = 1024;
  max_load_per_core = record { numerator = 2; denominator_less_one = 0 };
  max_iowait_percent = record { numerator = 30; denominator_less_one = 0 };
  manifest_expected_vram_bytes = 18253611008;
  ctx_size = 32768;
  gguf_size_bytes = 18253611008;
  kv_cache_overhead_mib = 1024;
  kv_cache_quant = "f16";
}

estimates :
    (estimate_kv_cache_mib 65536 18253611008 "f16" ≡ 9792)
    × (estimate_kv_cache_mib 65536 18253611008 "Q8_0" ≡ 4864)
    × (estimate_kv_cache_mib 65536 18253611008 "q5_0" ≡ 3072)
    × (estimate_kv_cache_mib 0 18253611008 "f16" ≡ 0)
unfolding estimate_kv_cache_mib scale_of
estimates = (refl, refl, refl, refl)

all_safety_gates_iff_example :
    All (λ (g : GateResult). g.ok ≡ true) (all_safety_gates host limits) ↔ IsRoomy host limits
all_safety_gates_iff_example = all_safety_gates_iff host limits

-- A manifest of that size, with its context on the command line.
abbrev manifest : Manifest
manifest = record {
  model_tag = "qwen";
  display_name = "";
  description = "";
  gguf_blob_sha256 = "";
  gguf_size_bytes = pos 18253611008;
  context_size = pos 2048;
  expected_vram_bytes = pos 18253611008;
  mmproj_blob_sha256 = "";
  revision = pos 1;
  llama_server_flags = ("cache_type_k", text "q8_0") ∷ ("ctx_size", int (pos 32768)) ∷ [];
  prompt_template = record { system_default = ""; stop_tokens = [] };
}

abbrev config : SafetyConfig
config = record {
  min_free_ram_mib = 1024;
  min_free_vram_mib = 512;
  max_load_per_core = record { numerator = 9; denominator_less_one = 9 };
  max_iowait_percent = record { numerator = 30; denominator_less_one = 0 };
}

gates_pass :
    All (λ (g : GateResult). g.ok ≡ true) (all_safety_gates host (limits_of config manifest))
unfolding all_safety_gates limits_of check_free_ram check_free_vram check_kv_cache_fit
    check_load_avg check_iowait estimate_kv_cache_mib scale_of find_key
gates_pass = (refl, (refl, (refl, (refl, (refl, tt)))))
