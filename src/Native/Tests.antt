-- ===== src/Native/Tests.antt =====
-- Runs of the policy.
use vega_claude.Prelude.{◌≡◌, refl, String, some, true, false, List, [], ◌∷◌, All}
use vega_claude.Prelude.Int.{ℤ, pos, int_eq}
use vega_claude.Sse.Event.{
  Event, Block, Delta, message_start, message_stop, content_block_start, content_block_delta,
  content_block_stop,
}
use vega_claude.Sse.Contract.{
  Checker, ok, fresh_checker, check_event, check_events, assert_stream_contract,
}
use vega_claude.Native.Policy.{new_policy, transform_all}
use vega_claude.Native.Plain.{IsPlain}
use vega_claude.Native.Contract.{policy_keeps_contract, policy_accepted}
use vega_claude.Native.Hidden.{policy_hides_thinking}

abbrev number : ℤ → String
number i = "7"

-- Two blocks that overlap: the first goes on after the second has begun.
abbrev overlapping : List Event
overlapping =
    message_start "msg_1" "model" 3
    ∷ content_block_start (some (pos 0)) (some (Block.thinking ""))
    ∷ content_block_start (some (pos 1)) (some (Block.text ""))
    ∷ content_block_delta (some (pos 0)) (some (Delta.thinking_delta "why"))
    ∷ content_block_delta (some (pos 1)) (some (Delta.text_delta "hello"))
    ∷ content_block_stop (some (pos 0))
    ∷ content_block_stop (some (pos 1))
    ∷ message_stop
    ∷ []

abbrev checked : Checker
checked = record { open_blocks = []; seen_blocks = pos 0 ∷ pos 1 ∷ [] }

policy_keeps_contract_example :
    assert_stream_contract false (transform_all number true overlapping new_policy).0 ≡ ok tt
unfolding assert_stream_contract check_events check_event
policy_keeps_contract_example = policy_keeps_contract false number overlapping refl

policy_accepted_example :
    (d : Checker) × (check_events true fresh_checker
        (transform_all number false overlapping new_policy).0
      ≡ ok d)
    × (d.open_blocks ≡ [])
unfolding check_events check_event
policy_accepted_example = policy_accepted true number false overlapping checked refl refl

policy_hides_thinking_example : All IsPlain (transform_all number false overlapping new_policy).0
unfolding check_events check_event
policy_hides_thinking_example = policy_hides_thinking false number overlapping checked refl
