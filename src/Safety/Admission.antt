-- ===== src/Safety/Admission.antt =====
-- What src/turbohaul/manager.py asks of the gates for a manifest: `_process_slot` before a spawn, and
-- `_compute_expected_drop_mib` after a teardown.
use southpaw_turbohaul.Base.{ℕ, suc, ◌/◌, max, String, Option, some}
use southpaw_turbohaul.Base.Int.{ℤ, pos, pos_part}
use southpaw_turbohaul.Manifest.Value.{Value, int, text}
use southpaw_turbohaul.Manifest.Validate.{find_key}
use southpaw_turbohaul.Manifest.Store.{Manifest, ok, err, Root, read_manifest}
use southpaw_turbohaul.Safety.{Fraction, Limits}

-- The fields `safety_...` of the configuration.
pub record SafetyConfig : Type 0 where
  pub min_free_ram_mib : ℕ
  pub min_free_vram_mib : ℕ
  pub max_load_per_core : Fraction
  pub max_iowait_percent : Fraction

-- The flag, if it is set and not 0, or the manifest's own number. The validator lets only integers
-- of at least 1 through.
abbrev pub manifest_ctx : Option Value → ℤ → ℕ
manifest_ctx (some (int (pos (suc n)))) context_size = suc n
manifest_ctx flag context_size = pos_part context_size

-- The name of the cache's type, "f16" where it is not set. The validator lets only names of the
-- table through.
abbrev pub manifest_kv_quant : Option Value → String
manifest_kv_quant (some (text s)) = s
manifest_kv_quant flag = "f16"

unfoldable pub limits_of : SafetyConfig → Manifest → Limits
limits_of c m = record {
  min_free_ram_mib = c.min_free_ram_mib;
  min_free_vram_mib = c.min_free_vram_mib;
  max_load_per_core = c.max_load_per_core;
  max_iowait_percent = c.max_iowait_percent;
  manifest_expected_vram_bytes = pos_part m.expected_vram_bytes;
  ctx_size = manifest_ctx (find_key "ctx_size" m.llama_server_flags) m.context_size;
  gguf_size_bytes = pos_part m.gguf_size_bytes;
  kv_cache_overhead_mib = 1024;
  kv_cache_quant = manifest_kv_quant (find_key "cache_type_k" m.llama_server_flags);
}

-- `_compute_expected_drop_mib`
unfoldable pub compute_expected_drop_mib : Root → String → ℕ
compute_expected_drop_mib root tag = elim (read_manifest root tag) [
  | ok m ↦ max 2048 (pos_part m.expected_vram_bytes / 1048576)
  | err e ↦ 2048
]
