-- ===== src/Supervisor/Reader/Segments.antt =====
-- supervisor.rs: the lines that `Logs::read` passes on, beside a description that knows no buffer.
use dashboard_quip_network.Prelude.{
  ℕ, ◌≡◌, ◌≤◌, Bool, true, false, List, [], ◌∷◌, ◌++◌, length, ◌==◌, if◌then◌else◌, leb, All, arith,
  Bool-cases, inl, inr, length-append, refl, ◌∙◌, ap, sym, le→leb, leb→le, any, All-append,
}
use mathlib.Core.List.{append_assoc, append-nil}
use dashboard_quip_network.Supervisor.Reader.{
  max_line, PipeRead, received, failed, Sink, LineBuffer, new_buffer, read_byte, read_bytes,
  read_chunks, is_empty, flush, read,
}

-- The bytes up to the first empty read or error, and whether it was an error.
abbrev pub bytes_of : List PipeRead → List ℕ
bytes_of [] = []
bytes_of (failed ∷ rest) = []
bytes_of (received [] ∷ rest) = []
bytes_of (received (b ∷ bs) ∷ rest) = (b ∷ bs) ++ bytes_of rest

abbrev pub faulty : List PipeRead → Bool
faulty [] = false
faulty (failed ∷ rest) = true
faulty (received [] ∷ rest) = false
faulty (received (b ∷ bs) ∷ rest) = faulty rest

-- A text cut at its newlines: the first piece, and the others.
abbrev pub split : List ℕ → List ℕ × List (List ℕ)
split [] = ([], [])
split (b ∷ bs) =
    let (first, rest) = split bs in if b == 10 then ([], first ∷ rest) else (b ∷ first, rest)

module _ {ℓ} {S : Type ℓ} (sink : Sink S) where
  abbrev pub fault : Bool → S → S
  fault error s = if error then sink.read_error s else s

  -- A piece that a newline ends.
  abbrev pub whole_line : List ℕ → S → S
  whole_line piece s =
      if leb (length piece) max_line then sink.line piece s else sink.oversized_line s

  -- The last piece, which none ends.
  abbrev pub last_line : Bool → List ℕ → S → S
  last_line error piece s =
      if leb (length piece) max_line
      then if is_empty sink piece then fault error s else sink.line piece (fault error s)
      else fault error (sink.oversized_line s)

  abbrev pub play : Bool → List ℕ → List (List ℕ) → S → S
  play error piece [] s = last_line error piece s
  play error piece (next ∷ more) s = play error next more (whole_line piece s)

  -- What is left to do once the first piece was found too long.
  abbrev play_after : Bool → List (List ℕ) → S → S
  play_after error [] s = fault error s
  play_after error (next ∷ more) s = play error next more s

  abbrev faulted : Bool → LineBuffer × S → LineBuffer × S
  faulted error (buffer, s) = (buffer, fault error s)

  read_bytes-append :
      (xs ys : List ℕ) (st : LineBuffer × S)
      → read_bytes sink (xs ++ ys) st ≡ read_bytes sink ys (read_bytes sink xs st)
  unfolding read_bytes
  read_bytes-append [] ys st = refl
  read_bytes-append (x ∷ xs) ys st = read_bytes-append xs ys (read_byte sink x st)

  read_chunks-read_bytes :
      (reads : List PipeRead) (st : LineBuffer × S)
      → read_chunks sink reads st ≡ faulted (faulty reads) (read_bytes sink (bytes_of reads) st)
  unfolding read_chunks read_bytes
  read_chunks-read_bytes [] st = refl
  read_chunks-read_bytes (failed ∷ rest) st = refl
  read_chunks-read_bytes (received [] ∷ rest) st = refl
  read_chunks-read_bytes (received (b ∷ bs) ∷ rest) st =
      read_chunks-read_bytes rest (read_bytes sink (b ∷ bs) st)
      ∙ ap (faulted (faulty rest)) (sym (read_bytes-append (b ∷ bs) (bytes_of rest) st))

  play-oversized :
      (error : Bool) (piece : List ℕ) (rest : List (List ℕ)) (s : S)
      → leb (length piece) max_line ≡ false
      → play error piece rest s ≡ play_after error rest (sink.oversized_line s)
  play-oversized error piece [] s long = rw long refl
  play-oversized error piece (next ∷ more) s long = rw long refl

  play-short :
      (error : Bool) (piece next : List ℕ) (more : List (List ℕ)) (s : S)
      → length piece ≤ max_line
      → play error piece (next ∷ more) s ≡ play error next more (sink.line piece s)
  play-short error piece next more s short = rw (le→leb (length piece) max_line short) refl

  -- `read_byte` in each of its branches.
  read_byte-newline :
      (b : ℕ) (buffer : LineBuffer) (s : S)
      → (b == 10) ≡ true
      → read_byte sink b (buffer, s)
        ≡ (new_buffer, if buffer.oversized then s else sink.line buffer.line s)
  unfolding read_byte
  read_byte-newline b buffer s newline = rw newline refl

  read_byte-dropped :
      (b : ℕ) (line : List ℕ) (s : S)
      → (b == 10) ≡ false
      → read_byte sink b (record { line = line; oversized = true }, s)
        ≡ (record { line = line; oversized = true }, s)
  unfolding read_byte
  read_byte-dropped b line s other = rw other refl

  read_byte-full :
      (b : ℕ) (line : List ℕ) (s : S)
      → (b == 10) ≡ false
      → (length line == max_line) ≡ true
      → read_byte sink b (record { line = line; oversized = false }, s)
        ≡ (record { line = []; oversized = true }, sink.oversized_line s)
  unfolding read_byte
  read_byte-full b line s other full = rw (other, full) refl

  read_byte-push :
      (b : ℕ) (line : List ℕ) (s : S)
      → (b == 10) ≡ false
      → (length line == max_line) ≡ false
      → read_byte sink b (record { line = line; oversized = false }, s)
        ≡ (record { line = line ++ b ∷ []; oversized = false }, s)
  unfolding read_byte
  read_byte-push b line s other room = rw (other, room) refl

  -- What `flush` makes of a buffer after the remaining bytes.
  abbrev finish : Bool → List ℕ → LineBuffer × S → S
  finish error bs st = flush sink (faulted error (read_bytes sink bs st))

  finish-nil :
      (error : Bool) (line : List ℕ) (s : S)
      → length line ≤ max_line
      → finish error [] (record { line = line; oversized = false }, s) ≡ last_line error line s
  unfolding flush read_bytes
  finish-nil error [] s short = refl
  finish-nil error (b ∷ line) s short = rw (le→leb (length (b ∷ line)) max_line short) refl

  finish-nil_dropped :
      (error : Bool) (s : S)
      → finish error [] (record { line = []; oversized = true }, s) ≡ fault error s
  unfolding flush read_bytes
  finish-nil_dropped error s = refl

  finish-cons :
      (error : Bool) (b : ℕ) (bs : List ℕ) (st : LineBuffer × S) {after : LineBuffer × S} {s : S}
      → read_byte sink b st ≡ after
      → finish error bs after ≡ s
      → finish error (b ∷ bs) st ≡ s
  unfolding read_bytes
  finish-cons error b bs st step rest = ap (finish error bs) step ∙ rest

  split-newline :
      (b : ℕ) (bs : List ℕ) → (b == 10) ≡ true → split (b ∷ bs) ≡ ([], (split bs).0 ∷ (split bs).1)
  split-newline b bs newline = rw newline refl

  split-other :
      (b : ℕ) (bs : List ℕ) → (b == 10) ≡ false → split (b ∷ bs) ≡ (b ∷ (split bs).0, (split bs).1)
  split-other b bs other = rw other refl

  -- The description of a buffer followed by pieces.
  abbrev play_from : Bool → List ℕ → List ℕ × List (List ℕ) → S → S
  play_from error line pieces s = play error (line ++ pieces.0) pieces.1 s

  -- A byte that is no newline, given both descriptions of the bytes after it.
  finish-other :
      (bs : List ℕ) (error : Bool) (b : ℕ) (line : List ℕ) (s : S)
      → finish error bs (record { line = []; oversized = true }, sink.oversized_line s)
        ≡ play_after error (split bs).1 (sink.oversized_line s)
      → (length (line ++ b ∷ []) ≤ max_line
          → finish error bs (record { line = line ++ b ∷ []; oversized = false }, s)
            ≡ play_from error (line ++ b ∷ []) (split bs) s)
      → (b == 10) ≡ false
      → length line ≤ max_line
      → finish error (b ∷ bs) (record { line = line; oversized = false }, s)
        ≡ play error (line ++ b ∷ (split bs).0) (split bs).1 s
  finish-other bs error b line s dropping taking other short =
      elim (Bool-cases (length line == max_line)) [
        | inl full ↦
            finish-cons error b bs _ (read_byte-full b line s other full) dropping
            ∙ sym (
                play-oversized error (line ++ b ∷ (split bs).0) (split bs).1 s
                  (ground (arith, length-append line (b ∷ (split bs).0))))
        | inr room ↦
            finish-cons error b bs _ (read_byte-push b line s other room)
              (taking (ground (arith, length-append line (b ∷ []))))
            ∙ ap (λ l. play error l (split bs).1 s) (append_assoc line (b ∷ []) (split bs).0)
      ]

  mutual
    -- From a buffer that takes bytes, and from one that drops them.
    finish-taking :
        (bs : List ℕ) (error : Bool) (line : List ℕ) (s : S)
        → length line ≤ max_line
        → finish error bs (record { line = line; oversized = false }, s)
          ≡ play_from error line (split bs) s
    finish-taking [] error line s short =
        finish-nil error line s short ∙ ap (λ l. last_line error l s) (sym (append-nil line))
    finish-taking (b ∷ bs) error line s short = elim (Bool-cases (b == 10)) [
      | inl newline ↦
          finish-cons error b bs _
            (read_byte-newline b (record { line = line; oversized = false }) s newline)
            (finish-taking bs error [] (sink.line line s) (omega arith))
          ∙ sym (play-short error line (split bs).0 (split bs).1 s short)
          ∙ ap (λ l. play error l ((split bs).0 ∷ (split bs).1) s) (sym (append-nil line))
          ∙ ap (λ r. play_from error line r s) (sym (split-newline b bs newline))
      | inr other ↦
          finish-other bs error b line s (finish-dropping bs error (sink.oversized_line s))
            (λ room. finish-taking bs error (line ++ b ∷ []) s room) other short
          ∙ ap (λ r. play_from error line r s) (sym (split-other b bs other))
    ]

    finish-dropping :
        (bs : List ℕ) (error : Bool) (s : S)
        → finish error bs (record { line = []; oversized = true }, s)
          ≡ play_after error (split bs).1 s
    finish-dropping [] error s = finish-nil_dropped error s
    finish-dropping (b ∷ bs) error s = elim (Bool-cases (b == 10)) [
      | inl newline ↦
          finish-cons error b bs _
            (read_byte-newline b (record { line = []; oversized = true }) s newline)
            (finish-taking bs error [] s (omega arith))
          ∙ ap (λ r. play_after error r.1 s) (sym (split-newline b bs newline))
      | inr other ↦
          finish-cons error b bs _ (read_byte-dropped b [] s other) (finish-dropping bs error s)
          ∙ ap (λ r. play_after error r.1 s) (sym (split-other b bs other))
    ]

  -- Whatever the sizes of the reads, `read` passes on what cutting the received bytes at the
  -- newlines gives: each whole piece of at most 64 KiB as a line, a longer one as one oversized
  -- line, and at the end the last piece unless it is empty, after the read error if there was
  -- one.
  pub read-play :
      (reads : List PipeRead) (s : S)
      → read sink reads s
        ≡ play (faulty reads) (split (bytes_of reads)).0 (split (bytes_of reads)).1 s
  unfolding read
  read-play reads s =
      ap (flush sink) (read_chunks-read_bytes reads (new_buffer, s))
      ∙ finish-taking (bytes_of reads) (faulty reads) [] s (omega arith)

-- The lines that the reader passes on, oldest first.
abbrev pub collect : Sink (List (List ℕ))
collect = record {
  line = λ piece lines. lines ++ piece ∷ [];
  oversized_line = λ lines. lines;
  read_error = λ lines. lines;
}

abbrev pub IsLine : List ℕ → Type 0
IsLine piece = (length piece ≤ max_line) × (any (λ b. b == 10) piece ≡ false)

abbrev HasNoNewline : List ℕ → Type 0
HasNoNewline piece = any (λ b. b == 10) piece ≡ false

HasNoNewline-cons :
    (b : ℕ) (bs : List ℕ) → (b == 10) ≡ false → HasNoNewline bs → HasNoNewline (b ∷ bs)
HasNoNewline-cons b bs other h = rw other h

split-HasNoNewline : (bs : List ℕ) → HasNoNewline (split bs).0 × All HasNoNewline (split bs).1
split-HasNoNewline [] = (refl, tt)
split-HasNoNewline (b ∷ bs) =
    let (first, rest) = split-HasNoNewline bs in
    elim (Bool-cases (b == 10)) [
      | inl newline ↦ rw newline (refl, (first, rest))
      | inr other ↦ rw other (HasNoNewline-cons b (split bs).0 other first, rest)
    ]

whole_line-IsLine :
    (piece : List ℕ) (lines : List (List ℕ))
    → HasNoNewline piece
    → All IsLine lines
    → All IsLine (whole_line collect piece lines)
whole_line-IsLine piece lines plain h = elim (Bool-cases (leb (length piece) max_line)) [
  | inl short ↦
      rw short
        (All-append IsLine lines (piece ∷ []) h ((leb→le (length piece) max_line short, plain), tt))
  | inr long ↦ rw long h
]

last_line-IsLine :
    (error : Bool) (piece : List ℕ) (lines : List (List ℕ))
    → HasNoNewline piece
    → All IsLine lines
    → All IsLine (last_line collect error piece lines)
last_line-IsLine true [] lines plain h = h
last_line-IsLine false [] lines plain h = h
last_line-IsLine true (b ∷ bs) lines plain h = whole_line-IsLine (b ∷ bs) lines plain h
last_line-IsLine false (b ∷ bs) lines plain h = whole_line-IsLine (b ∷ bs) lines plain h

play-IsLine :
    (error : Bool) (piece : List ℕ) (rest lines : List (List ℕ))
    → HasNoNewline piece
    → All HasNoNewline rest
    → All IsLine lines
    → All IsLine (play collect error piece rest lines)
play-IsLine error piece [] lines plain tail h = last_line-IsLine error piece lines plain h
play-IsLine error piece (next ∷ more) lines plain tail h =
    play-IsLine error next more (whole_line collect piece lines) tail.0 tail.1
      (whole_line-IsLine piece lines plain h)

-- Every line that `read` passes on is at most 64 KiB long and holds no newline.
pub read-IsLine : (reads : List PipeRead) → All IsLine (read collect reads [])
read-IsLine reads =
    let (first, rest) = split-HasNoNewline (bytes_of reads) in
    rw (read-play collect reads []) (
      play-IsLine (faulty reads) (split (bytes_of reads)).0 (split (bytes_of reads)).1 [] first rest
        tt)
