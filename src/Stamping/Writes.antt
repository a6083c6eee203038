-- ===== src/Stamping/Writes.antt =====
-- src/obsidian_git_sync/stamping.py: what `stamp` writes.
use obsidian_git_sync_mcp.Common.{
  ◌≡◌, refl, ◌⊎◌, inl, inr, Bool, true, false, ◌&&◌, Option, none, some, List, [], ◌∷◌, ◌++◌, Run,
  returned, raised, final, pure, ◌>>=◌, ◌>>◌, if◌then◌else◌, Bool-cases,
}
use obsidian_git_sync_mcp.Common.Ends
use obsidian_git_sync_mcp.Common.Ends.{Ends}
use obsidian_git_sync_mcp.Text.{Text, codes, text_eq, lower}
use obsidian_git_sync_mcp.Numeral.{ℤ}
use obsidian_git_sync_mcp.FilePath.{FilePath, suffix}
use obsidian_git_sync_mcp.Host.{
  Env, Trace, ran, logged, looked, read_clock, wrote, unlinked, pinged, Answer, got, refused,
  answer, Io,
}
use obsidian_git_sync_mcp.Stamping.{
  fm_delim, split_frontmatter, unquote, now_utc, modified_epoch, load_frontmatter, restamp,
  write_text, write_stamp, gate_closed, stamp_note, is_note, stamp,
}

-- The files that were written, or tried to be, each with its new text, the newest first.
unfoldable pub writes : Trace → List (FilePath × Text)
writes [] = []
writes (wrote p s ∷ t) = (p, s) ∷ writes t
writes (ran line r ∷ t) = writes t
writes (logged l ∷ t) = writes t
writes (looked p ∷ t) = writes t
writes (read_clock ∷ t) = writes t
writes (unlinked p done ∷ t) = writes t
writes (pinged s ∷ t) = writes t

-- A note with this body, behind some frontmatter.
abbrev Note : Text → Text → Type 0
Note body new = (fm : Text) × (new ≡ fm_delim ++ (fm ++ (fm_delim ++ body)))

module _ (env : Env) (path : FilePath) (t : Trace) where
  -- Nothing more is written than before.
  abbrev pub Same : Trace → Type 0
  Same u = writes u ≡ writes t

  -- The note is written once, with the body that was read.
  abbrev pub Written : Trace → Type 0
  Written u =
      (original : Text) × ((fm : Text) × ((env.read_text (looked path ∷ t) path ≡ got original)
          × (writes u
              ≡ (path, fm_delim ++ (fm ++ (fm_delim ++ (split_frontmatter original).1)))
                ∷ writes t)))

  abbrev pub Once : Trace → Type 0
  Once u = Same u ⊎ Written u

  abbrev Silent : {A : Type 0} → A → Trace → Type 0
  Silent a u = Same u

  answered : {A : Type 0} (a : Answer A) (u : Trace) → Same u → Ends Silent Once (answer a u)
  answered (got a) u h = h
  answered (refused e) u h = inl h

  abbrev with_created : env.Doc → Text → Option Text → Io env.Doc
  with_created doc ts created = elim created [
    | none ↦ answer (env.yaml_set doc (codes "created") ts)
    | some c ↦ pure doc
  ]

  created_set :
      (created : Option Text) (doc : env.Doc) (ts : Text) (u : Trace)
      → Same u
      → Ends Silent Once (with_created doc ts created u)
  created_set none doc ts u h = answered (env.yaml_set doc (codes "created") ts) u h
  created_set (some c) doc ts u h = h

  abbrev Noted : Text → Text → Trace → Type 0
  Noted body new u = Same u × Note body new

  restamp-Note :
      (doc : env.Doc) (body ts : Text) (u : Trace)
      → Same u
      → Ends (Noted body) Once (restamp env doc body ts u)
  unfolding restamp
  restamp-Note doc body ts u h =
      Ends.bind Once Silent (Noted body) u (answer (env.yaml_get doc (codes "created"))) _
        (answered (env.yaml_get doc (codes "created")) u h)
        (λ created v i.
          Ends.bind Once Silent (Noted body) v (with_created doc ts created) _
            (created_set created doc ts v i)
            (λ ready w j.
              Ends.bind Once Silent (Noted body) w
                (answer (env.yaml_set ready (codes "modified") ts)) _
                (answered (env.yaml_set ready (codes "modified") ts) w j)
                (λ stamped x k.
                  Ends.bind Once Silent (Noted body) x (answer (env.yaml_dump stamped))
                    (λ dumped. pure (fm_delim ++ (unquote dumped ++ (fm_delim ++ body))))
                    (answered (env.yaml_dump stamped) x k)
                    (λ dumped y l. (l, (unquote dumped, refl))))))

  abbrev Final : Bool → Trace → Type 0
  Final b u = Once u

  module _ (original : Text) (read : env.read_text (looked path ∷ t) path ≡ got original) where
    body : Text
    body = (split_frontmatter original).1

    write_done :
        (a : Answer (Unit {0})) (new : Text) (u : Trace)
        → Noted body new u
        → Ends Final Once ((answer a >> pure true) (wrote path new ∷ u))
    unfolding body writes
    write_done (got a) new u (h, (fm, e)) = inr (original, (fm, (read, rw (e, h))))
    write_done (refused e) new u (h, (fm, e')) = inr (original, (fm, (read, rw (e', h))))

    write_stamp-Once :
        (doc : env.Doc) (u : Trace)
        → Same u
        → Ends Final Once (write_stamp env path original doc body u)
    unfolding write_stamp now_utc write_text writes
    write_stamp-Once doc u h =
        Ends.bind Once (Noted body) Final (read_clock ∷ u) (restamp env doc body _) _
          (restamp-Note doc body _ (read_clock ∷ u) h)
          (λ new v i. elim (Bool-cases (text_eq new original)) [
            | inl e ↦ rw e (inl i.0)
            | inr e ↦ rw e (write_done (env.write_text v path new) new v i)
          ])

    load-Silent :
        (fm : Option Text) (u : Trace) → Same u → Ends Silent Once (load_frontmatter env fm u)
    unfolding load_frontmatter
    load-Silent none u h = h
    load-Silent (some fm) u h =
        Ends.bind Once Silent Silent u (answer (env.yaml_load fm)) _
          (answered (env.yaml_load fm) u h) loaded
      where
        loaded :
            (doc : Option env.Doc) (v : Trace)
            → Same v
            → Ends Silent Once
                ((elim doc as (λ x. Io env.Doc) [ none ↦ pure env.empty_doc | some d ↦ pure d ]) v)
        loaded none v i = i
        loaded (some d) v i = i

    modified-Silent :
        (doc : env.Doc) (u : Trace) → Same u → Ends Silent Once (modified_epoch env doc u)
    unfolding modified_epoch
    modified-Silent doc u h =
        Ends.bind Once Silent Silent u (answer (env.yaml_get doc (codes "modified"))) _
          (answered (env.yaml_get doc (codes "modified")) u h) parsed
      where
        parsed :
            (raw : Option Text) (v : Trace)
            → Same v
            → Ends Silent Once (
                (elim raw as (λ x. Io (Option ℤ)) [
                  | none ↦ pure none
                  | some r ↦ pure (env.strptime r)
                ])
                  v)
        parsed none v i = i
        parsed (some r) v i = i

    gated :
        (doc : env.Doc) (closed : Bool) (u : Trace)
        → Same u
        → Ends Final Once
            ((if closed then pure false else write_stamp env path original doc body) u)
    gated doc true u h = inl h
    gated doc false u h = write_stamp-Once doc u h

    -- What `stamp_note` does with the note's text.
    stamp_text : Trace → Run Trace Bool
    stamp_text = do
      doc ← load_frontmatter env (split_frontmatter original).0
      mtime ← (λ v. answer (env.mtime v path) (looked path ∷ v))
      modified ← modified_epoch env doc
      if gate_closed env mtime modified then pure false else write_stamp env path original doc body

    stamp_text-Once : (u : Trace) → Same u → Ends Final Once (stamp_text u)
    unfolding stamp_text writes
    stamp_text-Once u h =
        Ends.bind Once Silent Final u (load_frontmatter env (split_frontmatter original).0) _
          (load-Silent (split_frontmatter original).0 u h)
          (λ doc v i.
            Ends.bind Once Silent Final v (λ v. answer (env.mtime v path) (looked path ∷ v)) _
              (answered (env.mtime v path) (looked path ∷ v) i)
              (λ mtime w j.
                Ends.bind Once Silent Final w (modified_epoch env doc) _ (modified-Silent doc w j)
                  (λ modified x k. gated doc (gate_closed env mtime modified) x k)))

  read_done :
      (a : Answer Text)
      → env.read_text (looked path ∷ t) path ≡ a
      → Ends Final Once (elim (answer {S = Trace} a (looked path ∷ looked path ∷ t)) [
        | returned original u ↦
            (do
              let (fm, body) = split_frontmatter original
              doc ← load_frontmatter env fm
              mtime ← (λ v. answer (env.mtime v path) (looked path ∷ v))
              modified ← modified_epoch env doc
              if gate_closed env mtime modified
                  then pure false
                  else write_stamp env path original doc body)
              u
        | raised e u ↦ raised e u
      ])
  unfolding stamp_text body writes
  read_done (got original) e = stamp_text-Once original e (looked path ∷ looked path ∷ t) refl
  read_done (refused x) e = inl refl

  note_done :
      (note : Bool)
      → Ends Final Once ((if note then stamp_note env path else pure false) (looked path ∷ t))
  unfolding stamp_note writes
  note_done true = read_done (env.read_text (looked path ∷ t) path) refl
  note_done false = inl refl

  ended : {A : Type 0} (r : Run Trace A) → Ends {A = A} (λ a u. Once u) Once r → Once (final r)
  ended (returned a u) h = h
  ended (raised e u) h = h

  -- Stamping a note writes no file, or it writes exactly that note, once: the new text has some
  -- frontmatter between its delimiters, and behind them, unchanged, the body of the text that was read.
  pub stamp-Once : Once (final (stamp env path t))
  unfolding stamp is_note writes
  stamp-Once = ended (stamp env path t) (
      Ends.handle Once Final Once t
        (do note ← is_note env path; if note then stamp_note env path else pure false) _
        (note_done (env.is_file t path && text_eq (lower (suffix path)) (codes ".md")))
        (λ e u h. h))
