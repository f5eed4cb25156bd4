-- ===== src/Manifest/Allowlist.antt =====
-- The tables of src/turbohaul/manifest.py: the allowlist with the types of its flags, the numeric
-- bounds (whole numbers, all of them) and the texts that a flag may have.
use southpaw_turbohaul.Base.{String, List, [], ◌∷◌}
use southpaw_turbohaul.Base.Int.{ℤ, pos, negsuc}

-- The Python types that the table names.
pub data FlagType : Type 0 where
  int_type float_type bool_type text_type int_or_text bool_or_text : FlagType

-- `SAFE_LLAMA_FLAGS`
abbrev pub safe_llama_flags : List (String × FlagType)
safe_llama_flags =
    ("ctx_size", int_type)
    ∷ ("n_gpu_layers", int_or_text)
    ∷ ("threads", int_type)
    ∷ ("threads_batch", int_type)
    ∷ ("threads_http", int_type)
    ∷ ("parallel", int_type)
    ∷ ("batch_size", int_type)
    ∷ ("ubatch_size", int_type)
    ∷ ("n_predict", int_type)
    ∷ ("keep", int_type)
    ∷ ("flash_attn", bool_or_text)
    ∷ ("mlock", bool_type)
    ∷ ("no_mmap", bool_type)
    ∷ ("numa", text_type)
    ∷ ("swa_full", bool_type)
    ∷ ("no_perf", bool_type)
    ∷ ("sleep_idle_seconds", int_type)
    ∷ ("cache_reuse", int_type)
    ∷ ("no_context_shift", bool_type)
    ∷ ("slot_prompt_similarity", float_type)
    ∷ ("warmup", bool_type)
    ∷ ("check_tensors", bool_type)
    ∷ ("repack", bool_type)
    ∷ ("op_offload", bool_type)
    ∷ ("no_host", bool_type)
    ∷ ("direct_io", bool_type)
    ∷ ("cont_batching", bool_type)
    ∷ ("cache_type_k", text_type)
    ∷ ("cache_type_v", text_type)
    ∷ ("kv_offload", bool_type)
    ∷ ("kv_unified", bool_type)
    ∷ ("cache_idle_slots", bool_type)
    ∷ ("cache_prompt", bool_type)
    ∷ ("cache_ram", int_type)
    ∷ ("ctx_checkpoints", int_type)
    ∷ ("checkpoint_every_n_tokens", int_type)
    ∷ ("rope_scaling", text_type)
    ∷ ("rope_scale", float_type)
    ∷ ("rope_freq_base", float_type)
    ∷ ("rope_freq_scale", float_type)
    ∷ ("yarn_orig_ctx", int_type)
    ∷ ("yarn_ext_factor", float_type)
    ∷ ("yarn_attn_factor", float_type)
    ∷ ("yarn_beta_slow", float_type)
    ∷ ("yarn_beta_fast", float_type)
    ∷ ("cpu_moe", bool_type)
    ∷ ("n_cpu_moe", int_type)
    ∷ ("split_mode", text_type)
    ∷ ("main_gpu", int_type)
    ∷ ("fit", text_type)
    ∷ ("fit_ctx", int_type)
    ∷ ("temp", float_type)
    ∷ ("top_k", int_type)
    ∷ ("top_p", float_type)
    ∷ ("min_p", float_type)
    ∷ ("typical_p", float_type)
    ∷ ("top_n_sigma", float_type)
    ∷ ("repeat_penalty", float_type)
    ∷ ("repeat_last_n", int_type)
    ∷ ("presence_penalty", float_type)
    ∷ ("frequency_penalty", float_type)
    ∷ ("seed", int_type)
    ∷ ("mirostat", int_type)
    ∷ ("mirostat_lr", float_type)
    ∷ ("mirostat_ent", float_type)
    ∷ ("xtc_probability", float_type)
    ∷ ("xtc_threshold", float_type)
    ∷ ("dynatemp_range", float_type)
    ∷ ("dynatemp_exp", float_type)
    ∷ ("dry_multiplier", float_type)
    ∷ ("dry_base", float_type)
    ∷ ("dry_allowed_length", int_type)
    ∷ ("dry_penalty_last_n", int_type)
    ∷ ("adaptive_target", float_type)
    ∷ ("adaptive_decay", float_type)
    ∷ ("ignore_eos", bool_type)
    ∷ ("chat_template", text_type)
    ∷ ("jinja", bool_type)
    ∷ ("skip_chat_parsing", bool_type)
    ∷ ("special", bool_type)
    ∷ ("spm_infill", bool_type)
    ∷ ("reasoning_format", text_type)
    ∷ ("reasoning", text_type)
    ∷ ("reasoning_budget", int_type)
    ∷ ("spec_type", text_type)
    ∷ ("spec_draft_n_max", int_type)
    ∷ ("spec_draft_n_min", int_type)
    ∷ ("spec_draft_p_min", float_type)
    ∷ ("spec_draft_p_split", float_type)
    ∷ ("spec_draft_ngl", int_type)
    ∷ ("spec_draft_backend_sampling", bool_type)
    ∷ ("draft_block_size", int_type)
    ∷ ("mtp_head", text_type)
    ∷ ("metrics", bool_type)
    ∷ ("slots", bool_type)
    ∷ ("props", bool_type)
    ∷ ("embeddings", bool_type)
    ∷ ("reranking", bool_type)
    ∷ ("pooling", text_type)
    ∷ ("offline", bool_type)
    ∷ ("verbose", bool_type)
    ∷ ("log_disable", bool_type)
    ∷ ("log_colors", text_type)
    ∷ ("log_prefix", bool_type)
    ∷ ("log_timestamps", bool_type)
    ∷ ("log_verbosity", int_type)
    ∷ []

-- `SAFE_LLAMA_FLAG_BOUNDS`: the least and the greatest value.
abbrev pub safe_llama_flag_bounds : List (String × (ℤ × ℤ))
safe_llama_flag_bounds =
    ("ctx_size", (pos 1, pos 2000000))
    ∷ ("n_gpu_layers", (negsuc 0, pos 999))
    ∷ ("n_predict", (negsuc 0, pos 1000000))
    ∷ ("threads", (negsuc 0, pos 256))
    ∷ ("threads_batch", (negsuc 0, pos 256))
    ∷ ("threads_http", (negsuc 0, pos 256))
    ∷ ("parallel", (pos 1, pos 256))
    ∷ ("batch_size", (pos 1, pos 65536))
    ∷ ("ubatch_size", (pos 1, pos 65536))
    ∷ ("keep", (negsuc 0, pos 65536))
    ∷ ("sleep_idle_seconds", (negsuc 0, pos 86400))
    ∷ ("cache_reuse", (pos 0, pos 65536))
    ∷ ("n_cpu_moe", (pos 0, pos 256))
    ∷ ("main_gpu", (pos 0, pos 16))
    ∷ ("fit_ctx", (pos 1, pos 2000000))
    ∷ ("cache_ram", (pos 0, pos 262144))
    ∷ ("ctx_checkpoints", (pos 0, pos 1024))
    ∷ ("checkpoint_every_n_tokens", (pos 1, pos 1000000))
    ∷ ("yarn_orig_ctx", (pos 0, pos 2000000))
    ∷ ("temp", (pos 0, pos 10))
    ∷ ("top_k", (pos 0, pos 10000))
    ∷ ("top_p", (pos 0, pos 1))
    ∷ ("min_p", (pos 0, pos 1))
    ∷ ("typical_p", (pos 0, pos 1))
    ∷ ("top_n_sigma", (negsuc 0, pos 100))
    ∷ ("repeat_penalty", (pos 0, pos 10))
    ∷ ("repeat_last_n", (negsuc 0, pos 65536))
    ∷ ("presence_penalty", (negsuc 9, pos 10))
    ∷ ("frequency_penalty", (negsuc 9, pos 10))
    ∷ ("seed", (negsuc 0, pos 9223372036854775807))
    ∷ ("mirostat", (pos 0, pos 2))
    ∷ ("mirostat_lr", (pos 0, pos 1))
    ∷ ("mirostat_ent", (pos 0, pos 100))
    ∷ ("xtc_probability", (pos 0, pos 1))
    ∷ ("xtc_threshold", (pos 0, pos 1))
    ∷ ("dynatemp_range", (pos 0, pos 10))
    ∷ ("dynatemp_exp", (pos 0, pos 10))
    ∷ ("dry_multiplier", (pos 0, pos 10))
    ∷ ("dry_base", (pos 1, pos 10))
    ∷ ("dry_allowed_length", (pos 0, pos 65536))
    ∷ ("dry_penalty_last_n", (negsuc 0, pos 65536))
    ∷ ("adaptive_target", (negsuc 0, pos 100))
    ∷ ("adaptive_decay", (pos 0, pos 1))
    ∷ ("slot_prompt_similarity", (pos 0, pos 1))
    ∷ ("rope_scale", (pos 0, pos 1000))
    ∷ ("rope_freq_base", (pos 0, pos 10000000))
    ∷ ("rope_freq_scale", (pos 0, pos 100))
    ∷ ("yarn_ext_factor", (negsuc 0, pos 100))
    ∷ ("yarn_attn_factor", (negsuc 0, pos 100))
    ∷ ("yarn_beta_slow", (negsuc 0, pos 100))
    ∷ ("yarn_beta_fast", (negsuc 0, pos 100))
    ∷ ("reasoning_budget", (negsuc 0, pos 1000000))
    ∷ ("log_verbosity", (pos 0, pos 4))
    ∷ ("spec_draft_n_max", (pos 0, pos 64))
    ∷ ("spec_draft_n_min", (pos 0, pos 64))
    ∷ ("spec_draft_p_min", (pos 0, pos 1))
    ∷ ("spec_draft_p_split", (pos 0, pos 1))
    ∷ ("spec_draft_ngl", (negsuc 0, pos 999))
    ∷ ("draft_block_size", (pos 1, pos 64))
    ∷ []

-- The quantisations of the KV cache.
abbrev cache_types : List String
cache_types =
    "f32" ∷ "f16" ∷ "bf16" ∷ "q8_0" ∷ "q4_0" ∷ "q4_1" ∷ "iq4_nl" ∷ "q5_0" ∷ "q5_1" ∷ "turbo2"
    ∷ "turbo3" ∷ "turbo4" ∷ []

-- `SAFE_LLAMA_FLAG_STRING_ENUMS`
abbrev pub safe_llama_flag_string_enums : List (String × List String)
safe_llama_flag_string_enums =
    ("numa", ("none" ∷ "distribute" ∷ "isolate" ∷ "numactl" ∷ []))
    ∷ ("cache_type_k", cache_types)
    ∷ ("cache_type_v", cache_types)
    ∷ ("rope_scaling", ("none" ∷ "linear" ∷ "yarn" ∷ []))
    ∷ ("split_mode", ("none" ∷ "layer" ∷ "row" ∷ "tensor" ∷ []))
    ∷ ("fit", ("on" ∷ "off" ∷ []))
    ∷ ("reasoning_format", ("none" ∷ "deepseek" ∷ "deepseek-legacy" ∷ "auto" ∷ []))
    ∷ ("reasoning", ("on" ∷ "off" ∷ "auto" ∷ []))
    ∷ ("pooling", ("none" ∷ "mean" ∷ "cls" ∷ "last" ∷ "rank" ∷ []))
    ∷ ("log_colors", ("on" ∷ "off" ∷ "auto" ∷ []))
    ∷ ("spec_type", ("draft-mtp" ∷ "mtp" ∷ "nextn" ∷ []))
    ∷ []

-- `_FLASH_ATTN_STR_VALUES`
abbrev pub flash_attn_str_values : List String
flash_attn_str_values = "on" ∷ "off" ∷ "auto" ∷ "enabled" ∷ "disabled" ∷ []

-- `_N_GPU_LAYERS_STR_VALUES`
abbrev pub n_gpu_layers_str_values : List String
n_gpu_layers_str_values = "all" ∷ "auto" ∷ []

-- `SAFE_CHAT_TEMPLATE_NAMES`
abbrev pub safe_chat_template_names : List String
safe_chat_template_names =
    "chatml" ∷ "llama2" ∷ "llama3" ∷ "llama3.1" ∷ "llama3.2" ∷ "llama3.3" ∷ "gemma" ∷ "gemma2"
    ∷ "gemma3" ∷ "gemma4" ∷ "mistral" ∷ "mistral-v1" ∷ "mistral-v3" ∷ "mistral-v3-tekken"
    ∷ "mistral-v7" ∷ "phi3" ∷ "phi4" ∷ "deepseek" ∷ "deepseek2" ∷ "deepseek-r1" ∷ "qwen" ∷ "qwen2"
    ∷ "qwen2.5" ∷ "qwen3" ∷ "qwen3.5" ∷ "qwen3.6" ∷ "command-r" ∷ "command-r-plus" ∷ "vicuna"
    ∷ "alpaca" ∷ "zephyr" ∷ "chatglm3" ∷ "chatglm4" ∷ "openchat" ∷ "orion" ∷ "yi" ∷ "monarch"
    ∷ "smollm" ∷ "minicpm" ∷ "exaone3" ∷ "rwkv-world" ∷ "granite" ∷ "qwen3-thinking" ∷ "qwq"
    ∷ "default" ∷ []

-- `DENIED_FLAGS`
abbrev pub denied_flags : List String
denied_flags =
    "mmproj" ∷ "lora" ∷ "lora_base" ∷ "lora_scaled" ∷ "grammar_file" ∷ "json_schema_file"
    ∷ "log_file" ∷ "slot_save_path" ∷ "chat_template_file" ∷ "in_prefix_file" ∷ "in_suffix_file"
    ∷ "hf_token" ∷ "override_kv" ∷ "cache_prompt_file" ∷ "binary_override" ∷ "model" ∷ "alias"
    ∷ "rpc" ∷ "host" ∷ "port" ∷ "model_draft" ∷ "model_url" ∷ "model_url_draft" ∷ "hf_repo"
    ∷ "hf_repo_draft" ∷ "hf_file" ∷ "hf_repo_v" ∷ "hf_file_v" ∷ "docker_repo" ∷ "api_key"
    ∷ "api_key_file" ∷ "ssl_key_file" ∷ "ssl_cert_file" ∷ "lookup_cache_static"
    ∷ "lookup_cache_dynamic" ∷ "model_vocoder" ∷ "webui_config_file" ∷ "webui_mcp_proxy" ∷ "path"
    ∷ "media_path" ∷ "models_dir" ∷ "models_preset" ∷ "control_vector" ∷ "control_vector_scaled"
    ∷ "tools" ∷ "grammar" ∷ "tensor_split" ∷ "samplers" ∷ "dry_sequence_breaker"
    ∷ "chat_template_kwargs" ∷ "reasoning_budget_message" ∷ "fit_target" ∷ []
