-- ===== src/Kv/Calls.antt =====
-- Sequences of calls of the public methods of `KvBlockAllocator` (Kv).
use laminar_inference.Base.{List, [], ◌∷◌}
use laminar_inference.Base.Int.{ℤ}
use laminar_inference.Base.Text.{Str}
use laminar_inference.Kv.State.{Impl}
use laminar_inference.Kv.{allocate_prompt, append_tokens, release_sequence}

pub data Call : Type 0 where
  allocates : Str → ℤ → Str → ℤ → Call
  appends : Str → ℤ → Call
  releases : Str → Call

-- The state after a call, whatever it answers.
unfoldable pub step : Call → Impl → Impl
step (allocates id prompt_tokens key prefix_tokens) s =
    (allocate_prompt id prompt_tokens key prefix_tokens s).0
step (appends id token_count) s = (append_tokens id token_count s).0
step (releases id) s = release_sequence id s

unfoldable pub run : List Call → Impl → Impl
run [] s = s
run (c ∷ cs) s = run cs (step c s)
