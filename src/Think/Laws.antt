-- ===== src/Think/Laws.antt =====
-- The parser of thinking tags ends on every text, and neither loses, repeats nor reorders any.
use Prim.Native.Char.{Char, code}
use Prim.Native.String.{[], ◌∷◌, ◌++◌}
use text.Mathlib.TextEquality.{codes_equal}
use text.Mathlib.TextLemmas.{nil-append, cons-append}
use native.Mathlib.Nat.{zero-add, suc-add}
use mathlib.Core.Path.{ap₂, subst}
use vega_claude.Prelude.{
  ℕ, zero, suc, ◌+◌, ◌-◌, ◌≤◌, ◌<◌, ◌≡◌, refl, ap, String, Option, none, some, Bool, true, false,
  ◌||◌, List, arith, ltb, nat_beq, nat_beq_iff, ◌⊎◌, inl, inr, Bool-cases,
}
use vega_claude.Prelude.Text.{is_null, size, begins, first, rest_from, find, rfind}
use vega_claude.Think.{
  ContentType, ContentChunk, ThinkTagParser, open_tag, close_tag, chunk_of, Step, cut, may_open,
  may_close, emit_outside, outside_at, emit_inside, inside_at, parse_step, Feed, feed_next,
  feed_loop, feed,
}

abbrev pub type_of : Bool → ContentType
type_of true = ContentType.thinking
type_of false = ContentType.text

-- A reading of a text that starts in mode `m` and leaves the mode `m'` and the text `t`: what is
-- read is cut into chunks of the mode's type and into tags, with nothing left out.
pub data Reads (m' : Bool) (t : String) : Bool → String → List ContentChunk → Type 0 where
  stop : Reads m' t m' t List.[]
  chunk :
      {m : Bool} {s : String} {cs : List ContentChunk} (x : String)
      → Reads m' t m s cs
      → Reads m' t m (x ++ s) (List.◌∷◌ (record { type = type_of m; content = x }) cs)
  opens :
      {s : String} {cs : List ContentChunk}
      → Reads m' t true s cs
      → Reads m' t false (open_tag ++ s) cs
  closes :
      (m : Bool) {s : String} {cs : List ContentChunk}
      → Reads m' t false s cs
      → Reads m' t m (close_tag ++ s) cs

first-rest : (n : ℕ) (s : String) → first n s ++ rest_from n s ≡ s
first-rest zero s = rw nil-append
first-rest (suc n) [] = rw nil-append
first-rest (suc n) (c ∷ s) = rw cons-append (ap (λ r. c ∷ r) (first-rest n s))

size-rest : (n : ℕ) (s : String) → size (rest_from n s) ≡ size s - n
unfolding size
size-rest zero s = omega arith
size-rest (suc n) [] = omega arith
size-rest (suc n) (c ∷ s) = omega (arith, size-rest n s)

code-eq : (c d : Char) → nat_beq (code c) (code d) ≡ true → c ≡ d
code-eq c d h = codes_equal c d (ground arith)

rest-begins : (p s : String) → begins p s ≡ true → p ++ rest_from (size p) s ≡ s
unfolding size
rest-begins [] s h = rw nil-append
rest-begins (c ∷ p) [] h = cc
rest-begins (c ∷ p) (d ∷ s) h =
    rw cons-append
      (ap₂ (λ x r. x ∷ r) (code-eq c d (ground arith)) (rest-begins p s (ground arith)))

-- A tag that is found stands there.
find-split :
    (p s : String) (i : ℕ) → find p s ≡ some i → first i s ++ (p ++ rest_from (i + size p) s) ≡ s
find-split p [] i h = cc
find-split p (c ∷ s) zero h = rw (nil-append, zero-add) (rest-begins p (c ∷ s) (ground arith))
find-split p (c ∷ s) (suc i) h =
    rw (cons-append, suc-add) (ap (λ r. c ∷ r) (find-split p s i (ground arith)))

find-lt : (p s : String) (i : ℕ) → find p s ≡ some i → i < size s
unfolding size
find-lt p [] i h = cc
find-lt p (c ∷ s) zero h = omega arith
find-lt p (c ∷ s) (suc i) h = omega (arith, find-lt p s i (ground arith))

abbrev prepend : Option ContentChunk → List ContentChunk → List ContentChunk
prepend none cs = cs
prepend (some c) cs = List.◌∷◌ c cs

-- A round hands on a chunk, if any, and possibly a tag; the rest of the buffer stays.
record Round (m : Bool) (s : String) (r : Step) : Type 0 where
  reads :
      (m' : Bool) (t : String) (cs : List ContentChunk)
      → Reads m' t r.1.in_think_tag r.1.buffer cs
      → Reads m' t m s (prepend r.0 cs)
  shrinks : {c : ContentChunk} → r.0 ≡ some c → size r.1.buffer < size s
  shorter : size r.1.buffer ≤ size s
  held : r.0 ≡ none → size r.1.buffer ≡ size s → size s < size close_tag

Reads-cast :
    {m m' : Bool} {t s s' : String} {cs : List ContentChunk}
    → s ≡ s'
    → Reads m' t m s cs
    → Reads m' t m s' cs
Reads-cast {m} {m'} {t} {cs = cs} e r = subst (λ u. Reads m' t m u cs) e r

attach :
    {m' : Bool} {t : String} (m : Bool) (x u : String) {cs : List ContentChunk}
    → Reads m' t m u cs
    → Reads m' t m (x ++ u) (prepend (chunk_of (type_of m) x) cs)
unfolding chunk_of
attach m [] u r = rw nil-append r
attach m (c ∷ x) u r = chunk (c ∷ x) r

cut_shrinks :
    (type : ContentType) (i j : ℕ) (m : Bool) (s : String) {c : ContentChunk}
    → i ≤ j
    → (cut type i j m s).0 ≡ some c
    → size (cut type i j m s).1.buffer < size s
unfolding cut size
cut_shrinks type zero j m s le h = cc
cut_shrinks type (suc i) j m [] le h = cc
cut_shrinks type (suc i) j m (c ∷ s) le h = omega (arith, size-rest j (c ∷ s))

cut-none :
    (type : ContentType) (i j : ℕ) (m : Bool) (s : String)
    → (cut type i j m s).0 ≡ none
    → (i ≡ 0) ⊎ (size s ≡ 0)
unfolding cut chunk_of size
cut-none type zero j m s h = inl refl
cut-none type (suc i) j m [] h = inr refl
cut-none type (suc i) j m (c ∷ s) h = cc

-- A cut at `i` with nothing dropped.
cut-Round :
    (m : Bool) (i : ℕ) (s : String)
    → (i ≡ 0 → size s < size close_tag)
    → Round m s (cut (type_of m) i i m s)
unfolding cut size
cut-Round m i s small = record {
  reads = λ m' t cs r. Reads-cast (first-rest i s) (attach m (first i s) (rest_from i s) r);
  shrinks = cut_shrinks (type_of m) i i m s (omega arith);
  shorter = omega (arith, size-rest i s);
  held = λ e _. elim (cut-none (type_of m) i i m s e) [ inl z ↦ small z | inr z ↦ omega arith ];
}

-- A cut at a tag that was found, which is dropped.
tag-Round :
    (m m2 : Bool) (tag : String) (i : ℕ) (s : String)
    → find tag s ≡ some i
    → 0 < size tag
    → ((m' : Bool) (t u : String) (cs : List ContentChunk)
        → Reads m' t m2 u cs
        → Reads m' t m (tag ++ u) cs)
    → Round m s (cut (type_of m) i (i + size tag) m2 s)
unfolding cut size
tag-Round m m2 tag i s found long step = record {
  reads = λ m' t cs r.
      Reads-cast (find-split tag s i found)
        (attach m (first i s) (tag ++ rest_from (i + size tag) s) (step m' t _ cs r));
  shrinks = cut_shrinks (type_of m) i (i + size tag) m2 s (omega arith);
  shorter = omega (arith, size-rest (i + size tag) s);
  held = λ _ same. omega (arith, size-rest (i + size tag) s);
}

whole-Round : (m : Bool) (s : String) → Round m s (cut (type_of m) (size s) (size s) m s)
unfolding size
whole-Round m s = cut-Round m (size s) s (λ z. omega arith)

-- What is held back is shorter than a tag.
tail_small :
    (i : ℕ) (s : String)
    → i ≡ 0
    → (may_open (rest_from i s) || may_close (rest_from i s)) ≡ true
    → size s < size close_tag
unfolding may_open may_close
tail_small zero s z h = ground arith
tail_small (suc i) s z h = absurd (omega arith)

emit_outside-Round : (s : String) (o : Option ℕ) → Round false s (emit_outside s o)
unfolding emit_outside
emit_outside-Round s none = whole-Round false s
emit_outside-Round s (some i) =
    elim (Bool-cases (may_open (rest_from i s) || may_close (rest_from i s))) [
      | inl e ↦ rw e (cut-Round false i s (λ z. tail_small i s z e))
      | inr e ↦ rw e (whole-Round false s)
    ]

emit_inside-Round : (s : String) (o : Option ℕ) → Round true s (emit_inside s o)
unfolding emit_inside
emit_inside-Round s none = whole-Round true s
emit_inside-Round s (some i) = elim (Bool-cases (may_close (rest_from i s))) [
  | inl e ↦ rw e (cut-Round true i s (λ z. tail_small i s z (ground arith)))
  | inr e ↦ rw e (whole-Round true s)
]

orphan-Round :
    (s : String) (j : ℕ)
    → find close_tag s ≡ some j
    → Round false s (cut ContentType.text j (j + size close_tag) false s)
orphan-Round s j e =
    tag-Round false false close_tag j s e (unfold size in omega arith)
      (λ m' t u cs r. closes false r)

open-Round :
    (s : String) (i : ℕ)
    → find open_tag s ≡ some i
    → Round false s (cut ContentType.text i (i + size open_tag) true s)
open-Round s i e =
    tag-Round false true open_tag i s e (unfold size in omega arith) (λ m' t u cs r. opens r)

outside_at-Round :
    (s : String) (o o' : Option ℕ)
    → find open_tag s ≡ o
    → find close_tag s ≡ o'
    → Round false s (outside_at s o o')
unfolding outside_at
outside_at-Round s none none e e' = emit_outside-Round s (rfind b'<' s)
outside_at-Round s none (some j) e e' = orphan-Round s j e'
outside_at-Round s (some i) none e e' = open-Round s i e
outside_at-Round s (some i) (some j) e e' = elim (Bool-cases (ltb j i)) [
  | inl lt ↦ rw lt (orphan-Round s j e')
  | inr ge ↦ rw ge (open-Round s i e)
]

inside_at-Round : (s : String) (o : Option ℕ) → find close_tag s ≡ o → Round true s (inside_at s o)
unfolding inside_at
inside_at-Round s none e = emit_inside-Round s (rfind b'<' s)
inside_at-Round s (some i) e =
    tag-Round true false close_tag i s e (unfold size in omega arith) (λ m' t u cs r. closes true r)

step-Round :
    (m : Bool) (s : String) → Round m s (parse_step (record { buffer = s; in_think_tag = m }))
unfolding parse_step
step-Round true s = inside_at-Round s (find close_tag s) refl
step-Round false s = outside_at-Round s (find open_tag s) (find close_tag s) refl refl

record Fed (p : ThinkTagParser) (r : Feed) : Type 0 where
  chunks : List ContentChunk
  parser : ThinkTagParser
  returns : r ≡ some (chunks, parser)
  reads : Reads parser.in_think_tag parser.buffer p.in_think_tag p.buffer chunks
  short : size parser.buffer < size close_tag

null-size : (s : String) → is_null s ≡ true → size s ≡ 0
unfolding size
null-size [] h = refl
null-size (c ∷ s) h = cc

next-Fed :
    (p : ThinkTagParser) (loop : ThinkTagParser → Feed) (r : Step)
    → Round p.in_think_tag p.buffer r
    → ((q : ThinkTagParser) → size q.buffer < size p.buffer → Fed q (loop q))
    → Fed p (feed_next loop (size p.buffer) r.0 r.1)
unfolding feed_next
next-Fed p loop (some c, q) h rec =
    let f = rec q (h.shrinks refl) in
    record {
      chunks = List.◌∷◌ c f.chunks;
      parser = f.parser;
      returns = rw f.returns;
      reads = h.reads f.parser.in_think_tag f.parser.buffer f.chunks f.reads;
      short = f.short;
    }
next-Fed p loop (none, q) h rec = elim (Bool-cases (nat_beq (size q.buffer) (size p.buffer))) [
  | inl same ↦ rw same (record {
    chunks = List.[];
    parser = q;
    returns = refl;
    reads = h.reads q.in_think_tag q.buffer List.[] stop;
    short =
        omega
          (arith, h.held refl ((nat_beq_iff (size q.buffer) (size p.buffer)).0 same), h.shorter);
  })
  | inr less ↦
      let f = rec q (ground (arith, h.shorter)) in
      rw less (record {
        chunks = f.chunks;
        parser = f.parser;
        returns = f.returns;
        reads = h.reads f.parser.in_think_tag f.parser.buffer f.chunks f.reads;
        short = f.short;
      })
]

loop-Fed : (fuel : ℕ) (p : ThinkTagParser) → size p.buffer < fuel → Fed p (feed_loop fuel p)
unfolding feed_loop size
loop-Fed zero p h = absurd (omega arith)
loop-Fed (suc fuel) p h = elim (Bool-cases (is_null p.buffer)) [
  | inl e ↦ rw e (record {
    chunks = List.[];
    parser = p;
    returns = refl;
    reads = stop;
    short = omega (arith, null-size p.buffer e);
  })
  | inr e ↦ rw e (
      next-Fed p (feed_loop fuel) (parse_step p) (step-Round p.in_think_tag p.buffer)
        (λ q lt. loop-Fed fuel q (omega arith)))
]

-- `feed` ends on every text, in every state of the parser. What it reads, the buffer and then the
-- new text, is cut exactly into the chunks that it yields, each of the type of the mode it stands
-- in, and into tags that switch the mode; what it keeps is shorter than a closing tag.
pub feed-Reads :
    (p : ThinkTagParser) (content : String)
    → (cs : List ContentChunk) × (p' : ThinkTagParser) × (feed p content ≡ some (cs, p'))
      × Reads p'.in_think_tag p'.buffer p.in_think_tag (p.buffer ++ content) cs
      × (size p'.buffer < size close_tag)
unfolding feed
feed-Reads p content =
    let q : ThinkTagParser = record p { buffer = p.buffer ++ content } in
    let f = loop-Fed (suc (size q.buffer)) q (omega arith) in
    (f.chunks, f.parser, f.returns, f.reads, f.short)
