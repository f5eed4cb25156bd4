-- ===== src/Slot/ThreadId/Examples.antt =====
-- A long prompt, and its follow-up.
use southpaw_turbohaul.Base.{String, ◌≡◌, refl, arith}
use southpaw_turbohaul.Base.Text.{append_text}
use southpaw_turbohaul.Slot.ThreadId.{derive_thread_id, split, is_space}
use southpaw_turbohaul.Slot.ThreadId.Prefix.{derive_thread_id-append}

abbrev long_prompt : String
long_prompt =
    "a a a a a a a a a a a a a a a a a a a a a a a a a a a a a a a a a a a a a a a a a a a a a a a a a a a a a a a a a a a a a a a a"

-- A digest for the example.
abbrev digest : String → String
digest s = s

derive_thread_id-append_example :
    derive_thread_id digest (append_text long_prompt " and more") "qwen"
    ≡ derive_thread_id digest long_prompt "qwen"
unfolding split is_space
derive_thread_id-append_example =
    derive_thread_id-append digest long_prompt "qwen" " " "and more" refl (omega arith)
