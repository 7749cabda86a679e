-- ===== src/Progress/Chunks.antt =====
-- server-setup/progress-tailer.ts, `ProgressFileReader`: what the reads of a growing file give does not
-- depend on where they cut it.
use ai_support_agent_cli.Common.{
  ℕ, ◌+◌, ◌-◌, min, Option, none, some, List, [], ◌∷◌, ◌++◌, ◌≡◌, inl, inr, refl, arith, Bool-cases,
  Option-cases, leb, length, take, drop, append_assoc, append-nil, ◌≤◌,
}
use ai_support_agent_cli.Common.Text.{Text, split}
use ai_support_agent_cli.Progress.Utf8.{decode, decode-newline}
use ai_support_agent_cli.Progress.Lines.{
  split-append, flat_map-append, last_newline_sound, last_newline-append,
}
use ai_support_agent_cli.Progress.Window.{take-split, take-window, length-window, length-take-drop}
use ai_support_agent_cli.Progress.{
  Json, Look, Reader, fresh, max_read_chunk_bytes, last_newline, line_events, events_of, consume,
  take_in, read,
}

-- Whenever the file is opened, what stands in it is a part of what it will be in the end.
abbrev pub Shows : List ℕ → Look → Type 0
Shows file look =
    (content : List ℕ) → look.content ≡ some content → (more : List ℕ) × (file ≡ content ++ more)

-- A look at a file that nothing is appended to any more.
abbrev pub Whole : List ℕ → Look → Type 0
Whole file look = (look.size ≡ some (length file)) × (look.content ≡ some file)

module _ (parse_json : Text → Option Json) where
  events_of-append :
      (xs ys : List ℕ)
      → events_of parse_json (xs ++ (10 ∷ ys)) ≡ events_of parse_json xs ++ events_of parse_json ys
  unfolding events_of
  events_of-append xs ys =
      rw (decode-newline xs ys, split-append 10 (decode xs) (decode ys))
        (flat_map-append (line_events parse_json) (split 10 (decode xs)) (split 10 (decode ys)))

  abbrev then_consume : List Json × List ℕ → List ℕ → List Json × List ℕ
  then_consume (events, rest) ys =
      (events ++ (consume parse_json (rest ++ ys)).0, (consume parse_json (rest ++ ys)).1)

  consume-none : (xs : List ℕ) → last_newline xs ≡ none → consume parse_json xs ≡ ([], xs)
  unfolding consume
  consume-none xs e = rw (consume, e) refl

  consume-some :
      (xs whole rest : List ℕ)
      → last_newline xs ≡ some (whole, rest)
      → consume parse_json xs ≡ (events_of parse_json whole, rest)
  unfolding consume
  consume-some xs whole rest e = rw (consume, e) refl

  -- After a chunk with a newline.
  consume-newline :
      (w zs : List ℕ)
      → consume parse_json (w ++ (10 ∷ zs))
        ≡ (events_of parse_json w ++ (consume parse_json zs).0, (consume parse_json zs).1)
  consume-newline w zs = elim (Option-cases (last_newline zs)) [
    | inl e ↦
        rw
          (
            consume-some (w ++ (10 ∷ zs)) w zs (rw (last_newline-append w zs, e) refl),
            consume-none zs e,
            append-nil (events_of parse_json w),
          )
          refl
    | inr ((w', r), e) ↦
        rw
          (
            consume-some (w ++ (10 ∷ zs)) (w ++ (10 ∷ w')) r
                (rw (last_newline-append w zs, e) refl),
            consume-some zs w' r e,
            events_of-append w w',
          )
          refl
  ]

  consume-append :
      (xs ys : List ℕ) → consume parse_json (xs ++ ys) ≡ then_consume (consume parse_json xs) ys
  consume-append xs ys = elim (Option-cases (last_newline xs)) [
    | inl e ↦ rw (consume-none xs e) refl
    | inr ((w, r), e) ↦
        rw (consume-some xs w r e)
          (rw (last_newline_sound xs e, append_assoc w (10 ∷ r) ys) (consume-newline w (r ++ ys)))
  ]

  -- The events handed out so far, and what is kept, are those of the file up to the offset.
  abbrev pub UpTo : List ℕ → Reader → List Json → Type 0
  UpTo file r events = consume parse_json (take r.offset file) ≡ (events, r.leftover)

  take_in-UpTo :
      (file bytes : List ℕ) (r : Reader) (events : List Json)
      → take (length bytes) (drop r.offset file) ≡ bytes
      → UpTo file r events
      → UpTo file (take_in parse_json bytes r).0 (events ++ (take_in parse_json bytes r).1)
  unfolding take_in
  take_in-UpTo file [] r events window h = rw (append-nil events) h
  take_in-UpTo file (b ∷ bs) r events window h =
      rw
        (
          take-split r.offset (length (b ∷ bs)) file,
          window,
          consume-append (take r.offset file) (b ∷ bs),
          h,
        )
        refl

  pub read-UpTo :
      (file : List ℕ) (look : Look) (r : Reader) (events : List Json)
      → Shows file look
      → UpTo file r events
      → UpTo file (read parse_json look r).0 (events ++ (read parse_json look r).1)
  unfolding read
  read-UpTo file look r events shows h = elim (Option-cases look.size) [
    | inl e ↦ rw (read, e) (kept h)
    | inr (size, e) ↦ elim (Bool-cases (leb size r.offset)) [
      | inl old ↦ rw (read, e) (rw old (kept h))
      | inr grown ↦ elim (Option-cases look.content) [
        | inl gone ↦ rw (read, e) (rw (grown, gone) (kept h))
        | inr (content, there) ↦
            let n = min (size - r.offset) max_read_chunk_bytes in
            let (more, whole) = shows content there in
            let window : take (length (take n (drop r.offset content))) (drop r.offset file)
                ≡ take n (drop r.offset content) =
              rw whole (take-window r.offset n content more) in
            rw (read, e)
              (rw (grown, there)
                (take_in-UpTo file (take n (drop r.offset content)) r events window h))
      ]
    ]
  ]
    where
      kept : UpTo file r events → UpTo file r (events ++ [])
      kept h = rw (append-nil events) h

  pub reads_nothing : (file : List ℕ) → UpTo file fresh []
  unfolding consume last_newline
  reads_nothing file = refl

module _ (parse_json : Text → Option Json) where
  take_in-offset :
      (bytes : List ℕ) (r : Reader)
      → (take_in parse_json bytes r).0.offset ≡ r.offset + length bytes
  unfolding take_in
  take_in-offset [] r = omega arith
  take_in-offset (b ∷ bs) r = refl

  pub read-within :
      (file : List ℕ) (look : Look) (r : Reader)
      → Shows file look
      → r.offset ≤ length file
      → (read parse_json look r).0.offset ≤ length file
  unfolding read
  read-within file look r shows h = elim (Option-cases look.size) [
    | inl e ↦ rw (read, e) h
    | inr (size, e) ↦ elim (Bool-cases (leb size r.offset)) [
      | inl old ↦ rw (read, e) (rw old h)
      | inr grown ↦ elim (Option-cases look.content) [
        | inl gone ↦ rw (read, e) (rw (grown, gone) h)
        | inr (content, there) ↦
            let n = min (size - r.offset) max_read_chunk_bytes in
            let (more, whole) = shows content there in
            let inside : r.offset + length (take n (drop r.offset content)) ≤ length file =
              rw whole (length-window r.offset n content more (rw whole at h)) in
            rw (read, e)
              (rw (grown, there) (rw (take_in-offset (take n (drop r.offset content)) r) inside))
      ]
    ]
  ]

  pub read-catches_up :
      (file : List ℕ) (look : Look) (r : Reader)
      → Whole file look
      → r.offset ≤ length file
      → length file ≤ r.offset + max_read_chunk_bytes
      → (read parse_json look r).0.offset ≡ length file
  unfolding read
  read-catches_up file look r (size, content) le small =
      elim (Bool-cases (leb (length file) r.offset)) [
        | inl old ↦ rw (read, size) (rw old (ground arith))
        | inr grown ↦
            let all_left : min (length file - r.offset) max_read_chunk_bytes
                ≡ length file - r.offset =
              omega arith in
            let n = length file - r.offset in
            rw (read, size)
              (rw (grown, content)
                (rw
                  (
                    take_in-offset (take (min n max_read_chunk_bytes) (drop r.offset file)) r,
                    all_left,
                    length-take-drop r.offset n file (omega arith),
                  )
                  (omega arith)))
      ]
