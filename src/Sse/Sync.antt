-- ===== src/Sse/Sync.antt =====
-- The blocks that a `ContentBlockManager` takes for open, and how they agree with the checker's.
pub mod Ran
pub mod Steps
pub mod Whole
pub mod Compound
pub mod Close
pub mod Tools
use vega_claude.Prelude.{
  ℕ, ◌+◌, ◌<◌, ◌≡◌, refl, ◌∙◌, ◌≢◌, Option, none, some, Bool, true, false, List, [], ◌∷◌, Dict, get,
  has, put, remove, contains, add, contains-add, is_empty, IsDict, get-put, get-remove, has-get,
  has-put, arith, ◌==◌, ==_iff, nat_eq, if◌then◌else◌, is_empty,
}
use vega_claude.Prelude.Int.{ℤ, pos, negsuc, minus_one, int_eq}
use vega_claude.Sse.Blocks.{ToolCallState, ContentBlockManager, new_blocks}
use vega_claude.Sse.Contract.{Checker, fresh_checker, Kind, text, thinking, tool_use}

abbrev pub entry : Bool → ℤ → Kind → Dict ℤ Kind → Dict ℤ Kind
entry true k kind d = (k, kind) ∷ d
entry false k kind d = d

-- The started tool blocks.
unfoldable pub tools_live : Dict ℕ ToolCallState → Dict ℤ Kind
tools_live [] = []
tools_live ((i, state) ∷ d) = entry state.started state.block_index tool_use (tools_live d)

unfoldable pub live : ContentBlockManager → Dict ℤ Kind
live b =
    entry b.thinking_started b.thinking_index thinking
      (entry b.text_started b.text_index text (tools_live b.tool_states))

-- Every negative index is below the next one.
abbrev pub Below : ℕ → ℤ → Type 0
Below n (pos m) = m < n
Below n (negsuc m) = Unit

pub record Sync (b : ContentBlockManager) (c : Checker) : Type 0 where
  pub agree : (k : ℤ) → get k c.open_blocks ≡ get k (live b)
  pub live_distinct : IsDict (live b)
  pub live_below : (k : ℤ) → has k (live b) ≡ true → Below b.next_index k
  pub seen_below : (k : ℤ) → contains k c.seen_blocks ≡ true → Below b.next_index k
  pub tools_distinct : IsDict b.tool_states
  pub seen_any : 0 < b.next_index → is_empty c.seen_blocks ≡ false
  pub live_any : (k : ℤ) → has k (live b) ≡ true → 0 < b.next_index
  pub text_any : b.text_index ≢ minus_one → 0 < b.next_index
  pub thinking_any : b.thinking_index ≢ minus_one → 0 < b.next_index

has_of_get : (k : ℤ) (d d' : Dict ℤ Kind) → get k d ≡ get k d' → has k d ≡ has k d'
has_of_get k d d' e = ground (arith, has-get k d, has-get k d')

abbrev pub opened : Checker → ℤ → Kind → Checker
opened c k kind = record {
  open_blocks = put k kind c.open_blocks;
  seen_blocks = add k c.seen_blocks;
}

abbrev pub closed : Checker → ℤ → Checker
closed c k = record c { open_blocks = remove k c.open_blocks }

pub Below-suc : (n : ℕ) (k : ℤ) → Below n k → Below (n + 1) k
Below-suc n (pos m) h = omega arith
Below-suc n (negsuc m) h = h

pub is_empty-add : (k : ℤ) (ks : List ℤ) → is_empty (add k ks) ≡ false
is_empty-add k [] = refl
is_empty-add k (x ∷ ks) = ground arith

-- The index to be allocated next is neither open nor seen.
module _ {b : ContentBlockManager} {c : Checker} (s : Sync b c) where
  pub fresh_open : has (pos b.next_index) c.open_blocks ≡ false
  fresh_open = ground (
    arith,
    has_of_get (pos b.next_index) c.open_blocks (live b) (s.agree (pos b.next_index)),
    s.live_below (pos b.next_index),
  )

  pub fresh_live : has (pos b.next_index) (live b) ≡ false
  fresh_live = ground (arith, s.live_below (pos b.next_index))

  pub fresh_seen : contains (pos b.next_index) c.seen_blocks ≡ false
  fresh_seen = ground (arith, s.seen_below (pos b.next_index))

  -- A block is opened at the next index.
  pub Sync-open :
      (b' : ContentBlockManager) (kind : Kind)
      → b'.next_index ≡ b.next_index + 1
      → ((k : ℤ) → get k (live b') ≡ (if pos b.next_index == k then some kind else get k (live b)))
      → IsDict (live b')
      → IsDict b'.tool_states
      → Sync b' (opened c (pos b.next_index) kind)
  Sync-open b' kind next same distinct tools = record {
    agree = λ k. ground (arith, get-put (pos b.next_index) k kind c.open_blocks, same k, s.agree k);
    live_distinct = distinct;
    live_below = λ k h. ground (
      arith,
      has-get k (live b'),
      has-get k (live b),
      same k,
      s.live_below k,
      ==_iff (pos b.next_index) k,
      Below-suc b.next_index k,
    );
    seen_below = λ k h. ground (
      arith,
      contains-add k (pos b.next_index) c.seen_blocks,
      s.seen_below k,
      ==_iff (pos b.next_index) k,
      Below-suc b.next_index k,
    );
    tools_distinct = tools;
    seen_any = λ _. is_empty-add (pos b.next_index) c.seen_blocks;
    live_any = λ k _. omega arith;
    text_any = λ _. omega arith;
    thinking_any = λ _. omega arith;
  }

  -- An open block is stopped.
  pub Sync-close :
      (b' : ContentBlockManager) (i : ℤ)
      → b'.next_index ≡ b.next_index
      → b'.text_index ≡ b.text_index
      → b'.thinking_index ≡ b.thinking_index
      → ((k : ℤ) → get k (live b') ≡ (if i == k then none else get k (live b)))
      → IsDict (live b')
      → IsDict b'.tool_states
      → Sync b' (closed c i)
  Sync-close b' i next text_same thinking_same same distinct tools = record {
    agree = λ k. ground (arith, get-remove i k c.open_blocks, same k, s.agree k);
    live_distinct = distinct;
    live_below = λ k h.
        rw next (ground (arith, has-get k (live b'), has-get k (live b), same k, s.live_below k));
    seen_below = λ k h. rw next (s.seen_below k h);
    tools_distinct = tools;
    seen_any = λ h. s.seen_any (omega arith);
    live_any = λ k h.
        rw next (ground (arith, has-get k (live b'), has-get k (live b), same k, s.live_any k));
    text_any = λ h. rw next (s.text_any (λ e. h (text_same ∙ e)));
    thinking_any = λ h. rw next (s.thinking_any (λ e. h (thinking_same ∙ e)));
  }

  -- What is open stays as it is.
  pub Sync-same :
      (b' : ContentBlockManager)
      → b'.next_index ≡ b.next_index
      → b'.text_index ≡ b.text_index
      → b'.thinking_index ≡ b.thinking_index
      → live b' ≡ live b
      → IsDict b'.tool_states
      → Sync b' c
  Sync-same b' next text_same thinking_same same tools = record {
    agree = λ k. rw same (s.agree k);
    live_distinct = rw same s.live_distinct;
    live_below = λ k h. rw next (s.live_below k (rw same at h));
    seen_below = λ k h. rw next (s.seen_below k h);
    tools_distinct = tools;
    seen_any = λ h. s.seen_any (omega arith);
    live_any = λ k h. rw next (s.live_any k (rw same at h));
    text_any = λ h. rw next (s.text_any (λ e. h (text_same ∙ e)));
    thinking_any = λ h. rw next (s.thinking_any (λ e. h (thinking_same ∙ e)));
  }

pub fresh-Sync : Sync new_blocks fresh_checker
unfolding live tools_live
fresh-Sync = record {
  agree = λ k. refl;
  live_distinct = tt;
  live_below = λ k h. cc;
  seen_below = λ k h. cc;
  tools_distinct = tt;
  seen_any = λ h. absurd (omega arith);
  live_any = λ k h. cc;
  text_any = λ h. absurd (h refl);
  thinking_any = λ h. absurd (h refl);
}
