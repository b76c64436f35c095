-- ===== src/Batcher/Phases.antt =====
-- The phases of one scheduler step of `ContinuousBatcher::Run`
-- (backend/scheduling/continuous_batcher.cc) on one sequence: prefill, decode, completion without
-- tokens, and cancellation. Each takes the sequence's slot and the allocator.
use laminar_inference.Base.{ℕ, ◌+◌, ◌-◌, min, Bool, true, not, ◌&&◌, ◌==◌, if◌then◌else◌}
use laminar_inference.Base.Int.{pos, ltb_ℤ}
use laminar_inference.Base.Text.{Str, codes}
use laminar_inference.Kv.State.{Impl, sequence_block_count}
use laminar_inference.Kv.{allocate_prompt, append_tokens, release_sequence}
use laminar_inference.Batcher.State.{Slot, completed, rejected, cancelled, max_generated}

-- What a phase leaves: the slot, the allocator, and the tokens that it consumed or produced.
pub record Outcome : Type 0 where
  pub slot : Slot
  pub allocator : Impl
  pub tokens : ℕ

-- The end of the prefill loop's body: consume what the budget allows.
unfoldable pub consume : ℕ → Slot → Impl → Outcome
consume budget slot allocator =
    let consumed = min budget slot.state.prefill_remaining in
    let remaining = slot.state.prefill_remaining - consumed in
    record {
      slot = record slot {
        state = record slot.state {
          prefill_remaining = remaining;
          prompt_ready = if remaining == 0 then true else slot.state.prompt_ready;
        };
      };
      allocator = allocator;
      tokens = consumed;
    }

-- A prompt that gets no blocks is rejected.
unfoldable pub reject_prompt : Str → Slot → Impl → Outcome
reject_prompt message slot allocator = record {
  slot = record {
    state = record slot.state { done = true };
    result = record slot.result {
      status = rejected;
      message = message;
      kv_blocks = sequence_block_count slot.state.request.id allocator;
    };
  };
  allocator = allocator;
  tokens = 0;
}

-- The slot after its prompt has blocks.
abbrev pub allocated_slot : Bool → Slot → Slot
allocated_slot cache_hit slot = record {
  state = record slot.state { prompt_allocated = true };
  result = record slot.result { prefix_cache_hit = cache_hit };
}

-- The body of the prefill loop, behind the test of the budget.
unfoldable pub prefill_slot : ℕ → Slot → Impl → Outcome
prefill_slot budget slot allocator =
    let request = slot.state.request in
    let r =
      allocate_prompt request.id request.prompt_tokens request.prefix_cache_key
        request.prefix_cache_tokens allocator in
    if slot.state.prompt_allocated
    then consume budget slot allocator
    else if r.1.ok
    then consume budget (allocated_slot r.1.cache_hit slot) r.0
    else reject_prompt r.1.message slot r.0

-- A sequence whose next token gets no block is rejected, and releases its blocks.
unfoldable pub reject_decode : Str → Slot → Impl → Outcome
reject_decode message slot allocator = record {
  slot = record {
    state = record slot.state { done = true };
    result = record slot.result {
      status = rejected;
      message = message;
      generated_tokens = slot.state.generated;
      kv_blocks = sequence_block_count slot.state.request.id allocator;
    };
  };
  allocator = release_sequence slot.state.request.id allocator;
  tokens = 0;
}

-- One more token; `first_token_step` is set once.
abbrev pub decoded_slot : ℕ → Slot → Slot
decoded_slot step_index slot = record {
  state = record slot.state { generated = slot.state.generated + 1 };
  result = record slot.result {
    first_token_step =
        if ltb_ℤ slot.result.first_token_step (pos 0)
        then pos step_index
        else slot.result.first_token_step;
  };
}

-- The sequence has all its tokens, and releases its blocks.
unfoldable pub complete_decode : ℕ → Slot → Impl → Outcome
complete_decode step_index slot allocator = record {
  slot = record {
    state = record slot.state { done = true };
    result = record slot.result {
      status = completed;
      message = codes "completed";
      generated_tokens = slot.state.generated;
      completion_step = pos step_index;
      kv_blocks = sequence_block_count slot.state.request.id allocator;
    };
  };
  allocator = release_sequence slot.state.request.id allocator;
  tokens = 1;
}

-- The body of the decode loop.
unfoldable pub decode_slot : ℕ → Slot → Impl → Outcome
decode_slot step_index slot allocator =
    let r = append_tokens slot.state.request.id (pos 1) allocator in
    let next = decoded_slot step_index slot in
    if r.1.ok
    then (if next.state.generated == max_generated next.state
        then complete_decode step_index next r.0
        else record { slot = next; allocator = r.0; tokens = 1 })
    else reject_decode r.1.message slot r.0

-- The loop behind decoding: a request for no tokens is complete once its prompt is ready.
unfoldable pub finish_slot : ℕ → Slot → Impl → Outcome
finish_slot step_index slot allocator =
    if not slot.state.done && slot.state.prompt_ready && max_generated slot.state == 0
    then record {
      slot = record {
        state = record slot.state { done = true };
        result = record slot.result {
          status = completed;
          message = codes "completed";
          completion_step = pos step_index;
          kv_blocks = sequence_block_count slot.state.request.id allocator;
        };
      };
      allocator = release_sequence slot.state.request.id allocator;
      tokens = 0;
    }
    else record { slot = slot; allocator = allocator; tokens = 0 }

-- The loop that runs once `is_cancelled` answers true.
unfoldable pub cancel_slot : Slot → Impl → Outcome
cancel_slot slot allocator =
    if slot.state.done then record { slot = slot; allocator = allocator; tokens = 0 } else record {
      slot = record {
        state = record slot.state { done = true };
        result = record slot.result { status = cancelled; message = codes "cancelled" };
      };
      allocator = release_sequence slot.state.request.id allocator;
      tokens = 0;
    }
