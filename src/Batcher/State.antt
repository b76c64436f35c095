-- ===== src/Batcher/State.antt =====
-- The data of `ContinuousBatcher` (backend/scheduling/continuous_batcher.h and .cc): its configuration,
-- requests, results, steps and statistics, and the local `State` of `Run`.
use laminar_inference.Base.{ℕ, Bool, true, false, ◌||◌, List, [], ◌∷◌}
use laminar_inference.Base.Int.{ℤ, pos, negsuc, pos_part}
use laminar_inference.Base.Text.{Str, codes}
use laminar_inference.Kv.State.{KvCacheStats, clamp_positive}

-- The constructor's argument, whose fields may be anything.
pub record ContinuousBatcherConfig : Type 0 where
  pub max_prefill_tokens_per_step : ℤ
  pub max_decode_sequences_per_step : ℤ
  pub kv_cache_blocks : ℤ
  pub kv_block_tokens : ℤ

-- `config_`, whose fields the constructor made positive.
pub record Limits : Type 0 where
  pub max_prefill_tokens_per_step : ℕ
  pub max_decode_sequences_per_step : ℕ
  pub kv_cache_blocks : ℕ
  pub kv_block_tokens : ℕ

unfoldable pub make_batcher : ContinuousBatcherConfig → Limits
unfolding clamp_positive
make_batcher config = record {
  max_prefill_tokens_per_step = clamp_positive config.max_prefill_tokens_per_step 64;
  max_decode_sequences_per_step = clamp_positive config.max_decode_sequences_per_step 8;
  kv_cache_blocks = clamp_positive config.kv_cache_blocks 1024;
  kv_block_tokens = clamp_positive config.kv_block_tokens 16;
}

pub record SequenceRequest : Type 0 where
  pub id : Str
  pub prompt_tokens : ℤ
  pub max_generated_tokens : ℤ
  pub priority : ℤ
  pub prefix_cache_key : Str
  pub prefix_cache_tokens : ℤ

pub data SequenceStatus : Type 0 where
  completed rejected cancelled : SequenceStatus

unfoldable pub sequence_status_name : SequenceStatus → Str
sequence_status_name completed = codes "completed"
sequence_status_name rejected = codes "rejected"
sequence_status_name cancelled = codes "cancelled"

-- `first_token_step` and `completion_step` are -1 until they are known.
pub record SequenceResult : Type 0 where
  pub id : Str
  pub status : SequenceStatus
  pub prompt_tokens : ℕ
  pub generated_tokens : ℕ
  pub first_token_step : ℤ
  pub completion_step : ℤ
  pub kv_blocks : ℕ
  pub prefix_cache_hit : Bool
  pub message : Str

pub record SchedulerStep : Type 0 where
  pub step_index : ℕ
  pub prefill_tokens : ℕ
  pub decoded_tokens : ℕ
  pub queued_sequences : ℕ
  pub active_sequences : ℕ
  pub kv_blocks_used : ℕ
  pub decoded_sequence_ids : List Str

abbrev pub is_cancelled_status : SequenceStatus → Bool
is_cancelled_status completed = false
is_cancelled_status rejected = false
is_cancelled_status cancelled = true

abbrev pub any_cancelled : List SequenceResult → Bool
any_cancelled [] = false
any_cancelled (r ∷ rs) = is_cancelled_status r.status || any_cancelled rs

-- `average_decode_batch_size` is a `double`: the quotient of these two numbers, 0 without decode steps.
pub record ContinuousBatchingStats : Type 0 where
  pub total_steps : ℕ
  pub prefill_steps : ℕ
  pub decode_steps : ℕ
  pub total_prompt_tokens : ℕ
  pub total_generated_tokens : ℕ
  pub average_decode_batch_size : ℕ × ℕ
  pub kv_cache : KvCacheStats

pub record ContinuousBatchingRun : Type 0 where
  pub results : List SequenceResult
  pub steps : List SchedulerStep
  pub stats : ContinuousBatchingStats

-- The struct `State` of `Run`; the request's two token counts are no longer negative. `index` is the
-- position in both vectors.
pub record SequenceState : Type 0 where
  pub request : SequenceRequest
  pub index : ℕ
  pub prefill_remaining : ℕ
  pub generated : ℕ
  pub prompt_allocated : Bool
  pub prompt_ready : Bool
  pub done : Bool

-- The request's token limit, which the copy in `SequenceState` holds as a number that is not negative.
abbrev pub max_generated : SequenceState → ℕ
max_generated s = pos_part s.request.max_generated_tokens

-- `states[i]` and `run.results[i]`, which are always used together.
pub record Slot : Type 0 where
  pub state : SequenceState
  pub result : SequenceResult

-- One round of the first loop of `Run`.
unfoldable pub make_slot : ℕ → SequenceRequest → Slot
make_slot index request =
    let prompt_tokens = pos_part request.prompt_tokens in
    let clamped : SequenceRequest = record request {
      prompt_tokens = pos prompt_tokens;
      max_generated_tokens = pos (pos_part request.max_generated_tokens);
    } in
    record {
      state = record {
        request = clamped;
        index = index;
        prefill_remaining = prompt_tokens;
        generated = 0;
        prompt_allocated = false;
        prompt_ready = false;
        done = false;
      };
      result = record {
        id = request.id;
        status = rejected;
        prompt_tokens = prompt_tokens;
        generated_tokens = 0;
        first_token_step = negsuc 0;
        completion_step = negsuc 0;
        kv_blocks = 0;
        prefix_cache_hit = false;
        message = codes "queued";
      };
    }
