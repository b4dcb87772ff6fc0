-- ===== src/Sse/Sync/Tools.antt =====
-- How the started tool blocks change when a tool state is written.
use vega_claude.Prelude.{
  ℕ, ◌≡◌, Option, none, some, true, false, [], ◌∷◌, Dict, get, has, put, IsDict, arith, ◌==◌,
  ==_iff, nat_eq, if◌then◌else◌,
}
use vega_claude.Prelude.Int.{ℤ, int_eq}
use vega_claude.Sse.Blocks.{ToolCallState}
use vega_claude.Sse.Contract.{tool_use}
use vega_claude.Sse.Sync.{tools_live}

-- The block that a tool state stands for, if it is started.
abbrev pub slot : Option ToolCallState → Option ℤ
slot none = none
slot (some state) = if state.started then some state.block_index else none

-- A write that neither starts nor moves a block changes nothing that is open.
pub tools_live-put_same :
    (i : ℕ) (state : ToolCallState) (d : Dict ℕ ToolCallState)
    → slot (get i d) ≡ slot (some state)
    → tools_live (put i state d) ≡ tools_live d
unfolding tools_live
tools_live-put_same i state [] h = ground arith
tools_live-put_same i state ((j, old) ∷ d) h = ground (arith, tools_live-put_same i state d)

-- A write that starts a block adds it.
pub has-tools_live-put :
    (i : ℕ) (state : ToolCallState) (d : Dict ℕ ToolCallState) (k : ℤ)
    → slot (get i d) ≡ none
    → state.started ≡ true
    → has k (tools_live (put i state d))
      ≡ (if state.block_index == k then true else has k (tools_live d))
unfolding tools_live
has-tools_live-put i state [] k h h' = ground arith
has-tools_live-put i state ((j, old) ∷ d) k h h' = ground (arith, has-tools_live-put i state d k)

pub get-tools_live-put :
    (i : ℕ) (state : ToolCallState) (d : Dict ℕ ToolCallState) (k : ℤ)
    → slot (get i d) ≡ none
    → state.started ≡ true
    → has state.block_index (tools_live d) ≡ false
    → get k (tools_live (put i state d))
      ≡ (if state.block_index == k then some tool_use else get k (tools_live d))
unfolding tools_live
get-tools_live-put i state [] k h h' f = ground arith
get-tools_live-put i state ((j, old) ∷ d) k h h' f = ground (
  arith,
  get-tools_live-put i state d k,
  ==_iff old.block_index k,
  ==_iff state.block_index k,
  ==_iff old.block_index state.block_index,
)

pub tools_live-put-IsDict :
    (i : ℕ) (state : ToolCallState) (d : Dict ℕ ToolCallState)
    → slot (get i d) ≡ none
    → state.started ≡ true
    → has state.block_index (tools_live d) ≡ false
    → IsDict (tools_live d)
    → IsDict (tools_live (put i state d))
unfolding tools_live
tools_live-put-IsDict i state [] h h' f distinct = ground arith
tools_live-put-IsDict i state ((j, old) ∷ d) h h' f distinct = ground (
  arith,
  tools_live-put-IsDict i state d,
  has-tools_live-put i state d old.block_index,
  ==_iff old.block_index state.block_index,
  ==_iff state.block_index old.block_index,
)

-- A started tool's block is open.
pub get-tools_live :
    (i : ℕ) (state : ToolCallState) (d : Dict ℕ ToolCallState)
    → get i d ≡ some state
    → state.started ≡ true
    → IsDict (tools_live d)
    → get state.block_index (tools_live d) ≡ some tool_use
unfolding tools_live
get-tools_live i state [] e h distinct = ground arith
get-tools_live i state ((j, old) ∷ d) e h distinct =
    ground (arith, get-tools_live i state d, ==_iff old.block_index state.block_index)
