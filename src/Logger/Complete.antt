-- ===== src/Logger/Complete.antt =====
-- The file of a log of pjsr/lib/FileLogger.js is complete after every line.
use distributed_wbpp.Prelude.{
  ◌≡◌, refl, sym, ◌∙◌, ap, inl, inr, true, false, Option, some, List, [], ◌∷◌, ◌++◌, Text, Outcome,
  ok, throw, arith, append_assoc, append-nil, Bool-cases, Outcome-cases,
}
use distributed_wbpp.Calls.{attempt}
use distributed_wbpp.Logger.{
  Disk, State, header_text, entry_text, open_logger, open_file, write_header, line, lift,
  ensure_directory,
}

abbrev pub joined : List Text → Text
joined [] = []
joined (e ∷ es) = e ++ joined es

module _ {W : Type 0} (D : Disk W) (content : Text → W → Option Text) where
  -- A file that was written has what was written.
  abbrev pub Writes : Type 0
  Writes =
      (p t : Text) (w : W)
      → (D.write_file p t w).0 ≡ ok tt
      → content p (D.write_file p t w).1 ≡ some t

  -- A logger that was opened, its lines with the entries that they added, and what others do in between to
  -- other files.
  pub data Logs (dir prefix : Text) (header : List Text) (w : W)
      : List Text → State D → Type 0 where
    opened : Logs dir prefix header w [] (open_logger D dir prefix header w)
    said :
        {es : List Text} {s : State D} (msg : Text)
        → Logs dir prefix header w es s
        → s.logger.ok ≡ true
        → Logs dir prefix header w (es ++ entry_text (D.now s.world) msg ∷ []) (line D msg s)
    ignored :
        {es : List Text} {s : State D} (msg : Text)
        → Logs dir prefix header w es s
        → s.logger.ok ≡ false
        → Logs dir prefix header w es (line D msg s)
    elsewhere :
        {es : List Text} {s : State D} (v : W)
        → Logs dir prefix header w es s
        → content s.logger.path v ≡ content s.logger.path s.world
        → Logs dir prefix header w es (record s { world = v })

  abbrev Complete : List Text → List Text → State D → Type 0
  Complete header es s =
      s.logger.ok ≡ true
      → (s.logger.buffer ≡ header_text header ++ joined es)
        × (content s.logger.path s.world ≡ some s.logger.buffer)

  joined-append : (es : List Text) (e : Text) → joined (es ++ e ∷ []) ≡ joined es ++ e
  joined-append [] e = append-nil e
  joined-append (d ∷ es) e = rw (joined-append es e) (sym (append_assoc d (joined es) e))

  line_fails :
      (msg : Text) (s : State D) (e : Text)
      → s.logger.ok ≡ true
      → (D.write_file s.logger.path (s.logger.buffer ++ entry_text (D.now s.world) msg) s.world).0
        ≡ throw e
      → (line D msg s).logger.ok ≡ false
  unfolding line
  line_fails msg s e h k = rw (h, k) refl

  line_writes :
      (msg : Text) (s : State D)
      → s.logger.ok ≡ true
      → (D.write_file s.logger.path (s.logger.buffer ++ entry_text (D.now s.world) msg) s.world).0
        ≡ ok tt
      → line D msg s ≡ record {
        logger = record s.logger { buffer = s.logger.buffer ++ entry_text (D.now s.world) msg };
        world =
            (D.write_file s.logger.path
              (s.logger.buffer ++ entry_text (D.now s.world) msg)
              s.world).1;
      }
  unfolding line
  line_writes msg s h k = simp (h, k) refl

  silent_line : (msg : Text) (s : State D) → s.logger.ok ≡ false → line D msg s ≡ s
  unfolding line
  silent_line msg s h = rw h refl

  -- What the constructor's `catch` does.
  abbrev caught : Text → State D → Outcome (Unit {0}) × State D
  caught e t = (ok tt, record t { logger = record t.logger { path = [] } })

  header_lem :
      Writes
      → (path : Text) (header : List Text) (s : State D)
      → Complete header [] (attempt (write_header D path header) caught s).1
  unfolding write_header
  header_lem writes path header s =
      elim (Outcome-cases (D.write_file path (header_text header) s.world).0) [
        | inr (m, fails) ↦ rw (fails, write_header) (λ k. cc)
        | inl (u, done) ↦
            rw (done, write_header)
              (λ k. (
                sym (append-nil (header_text header)),
                writes path (header_text header) s.world done,
              ))
      ]

  -- A logger before its file is opened.
  abbrev begun : W → State D
  begun w = record { logger = record { ok = false; buffer = []; path = [] }; world = w }

  -- Opened: the header is in the file.
  open_lem :
      Writes
      → (dir prefix : Text) (header : List Text) (w : W)
      → Complete header [] (open_logger D dir prefix header w)
  unfolding open_logger open_file ensure_directory lift
  open_lem writes dir prefix header w = elim (Bool-cases (D.directory_exists dir w)) [
    | inl there ↦ rw (there, open_logger, open_file) (header_lem writes _ header (begun w))
    | inr absent ↦ elim (Outcome-cases (D.create_directory dir w).0) [
      | inr (m, fails) ↦ rw (absent, fails, open_logger, open_file) (λ k. cc)
      | inl (u, made) ↦
          rw (absent, made, open_logger, open_file)
            (header_lem writes _ header (begun (D.create_directory dir w).1))
    ]
  ]

  line_lem :
      Writes
      → (header : List Text) (es : List Text) (msg : Text) (s : State D) → s.logger.ok ≡ true
      → Complete header es s
      → Complete header (es ++ entry_text (D.now s.world) msg ∷ []) (line D msg s)
  line_lem writes header es msg s h k l =
      let e = entry_text (D.now s.world) msg in
      let b = s.logger.buffer ++ e in
      elim (Outcome-cases (D.write_file s.logger.path b s.world).0) [
        | inr (m, fails) ↦ absurd (ground (arith, line_fails msg s m h fails, l))
        | inl (u, done) ↦ rw (line_writes msg s h done) (
          rw ((k h).0, joined-append es e) (append_assoc (header_text header) (joined es) e),
          writes s.logger.path b s.world done,
        )
      ]

  complete :
      Writes
      → {dir prefix : Text} {header : List Text} {w : W} {es : List Text} {s : State D}
      → Logs dir prefix header w es s
      → Complete header es s
  complete writes {dir} {prefix} {header} {w} opened = open_lem writes dir prefix header w
  complete writes {header = header} (said {es} {s} msg r h) =
      line_lem writes header es msg s h (complete writes r)
  complete writes (ignored {es} {s} msg r h) = rw (silent_line msg s h) (complete writes r)
  complete writes (elsewhere {es} {s} v r e) = λ h. let (b, c) = complete writes r h in (b, e ∙ c)

  -- While a log is ok, whatever lines were written and whatever else happened to other files: its buffer is
  -- the header with the entry of every line, in order, each stamped with the time of its call, and its file
  -- has exactly that. A file that is written is taken to have what was written.
  pub Logs-complete :
      {dir prefix : Text} {header : List Text} {w : W} {es : List Text} {s : State D}
      → Writes
      → Logs dir prefix header w es s
      → s.logger.ok ≡ true
      → (s.logger.buffer ≡ header_text header ++ joined es)
        × (content s.logger.path s.world ≡ some (header_text header ++ joined es))
  Logs-complete writes r h = let (b, c) = complete writes r h in (b, c ∙ ap some b)
