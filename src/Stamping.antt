-- ===== src/Stamping.antt =====
-- src/obsidian_git_sync/stamping.py: the timestamps in the frontmatter of a note. ruamel.yaml is a
-- parameter of `Env`; a line stands for what `^` and `$` enclose under `re.MULTILINE`.
pub mod Frontmatter
pub mod Lines
pub mod Unquote
pub mod Restamped
pub mod Again
pub mod Writes
use mathlib.Core.Option
use obsidian_git_sync_mcp.Common.{
  ℕ, zero, suc, ◌+◌, ◌/◌, Bool, true, false, not, ◌&&◌, Option, none, some, List, [], ◌∷◌, ◌++◌,
  map, if◌then◌else◌, returned, raised, catch, pure, ◌>>=◌, ◌>>◌, ltb, leb, ◌==◌, length, take,
  drop,
}
use obsidian_git_sync_mcp.Text.{Text, codes, text_eq, starts_with, split, join, lower}
use obsidian_git_sync_mcp.Numeral.{ℤ, pos, negsuc, decimal, digit_value, second}
use obsidian_git_sync_mcp.FilePath.{FilePath, suffix}
use obsidian_git_sync_mcp.Host.{
  Env, Io, DateTime, log, answer, looked, read_clock, wrote, got, refused, stamping_failed,
}

-- `FM_DELIM`
abbrev pub fm_delim : Text
fm_delim = codes "---\n"

-- `s.find(t)`; `none` is -1.
unfoldable pub find : Text → Text → Option ℕ
unfolding text_eq starts_with
find [] t = if text_eq t [] then some 0 else none
find (c ∷ s) t =
    let later = find s t in
    elim (starts_with (c ∷ s) t) [ true ↦ some 0 | false ↦ Option.map suc later ]

-- The search starts at `len(FM_DELIM) - 1`, and `end` counts from there.
unfoldable pub split_frontmatter : Text → Option Text × Text
unfolding starts_with
split_frontmatter text =
    if not (starts_with text fm_delim)
    then (none, text)
    else elim (find (drop 3 text) (b'\n' ∷ fm_delim)) [
      | none ↦ (none, text)
      | some end ↦ (
        some (drop 4 (take (suc (suc (suc (suc end)))) text)),
        drop (suc (suc (suc (suc (suc (suc (suc (suc end)))))))) text,
      )
    ]

-- A digit or two: `%m` and its like.
two_digits : ℕ → Text
two_digits n = if ltb n 10 then b'0' ∷ decimal n else decimal n

-- `strftime` with `TS_FORMAT`
unfoldable pub strftime : DateTime → Text
unfolding two_digits decimal
strftime d =
    decimal d.year
    ++ (b'-'
        ∷ (two_digits d.month
            ++ (b'-'
                ∷ (two_digits d.day
                    ++ (b'T'
                        ∷ (two_digits d.hour
                            ++ (b':'
                                ∷ (two_digits d.minute
                                    ++ (b':' ∷ (two_digits d.second ++ b'Z' ∷ []))))))))))

is_digit : ℕ → Bool
is_digit c = elim (digit_value c) [ none ↦ false | some d ↦ true ]

-- Does the text have the form, where `0` stands for a digit?
unfoldable pub has_form : Text → Text → Bool
unfolding is_digit
has_form [] [] = true
has_form [] (c ∷ s) = false
has_form (f ∷ form) [] = false
has_form (f ∷ form) (c ∷ s) = (if f == b'0' then is_digit c else c == f) && has_form form s

abbrev pub ts_form : Text
ts_form = codes "0000-00-00T00:00:00Z"

-- `TS_PATTERN` with one of its two keys, and the replacement, on one line.
unfoldable pub unquote_key : Text → Text → Option Text
unfolding starts_with has_form
unquote_key key line =
    let lead = key ++ codes ": '" in
    let rest = drop (length lead) line in
    if starts_with line lead && has_form (ts_form ++ b'\'' ∷ []) rest
    then some (key ++ (codes ": " ++ take 20 rest))
    else none

unfoldable pub unquote_line : Text → Text
unfolding unquote_key
unquote_line line = elim (unquote_key (codes "created") line) [
  | some new ↦ new
  | none ↦ elim (unquote_key (codes "modified") line) [ some new ↦ new | none ↦ line ]
]

-- `TS_PATTERN.sub(r"\1: \2", text)`
unfoldable pub unquote : Text → Text
unfolding unquote_line split join
unquote text = join (b'\n' ∷ []) (map unquote_line (split b'\n' text))

-- `mtime_floor <= modified_epoch`
unfoldable pub le_epoch : ℕ → ℤ → Bool
le_epoch n (pos e) = leb n e
le_epoch n (negsuc e) = false

module _ (env : Env) where
  unfoldable pub now_utc : Io Text
  unfolding strftime
  now_utc t = returned (strftime (env.utc_now t)) (read_clock ∷ t)

  unfoldable pub modified_epoch : env.Doc → Io (Option ℤ)
  modified_epoch doc = do
    raw ← answer (env.yaml_get doc (codes "modified"))
    elim raw [ none ↦ pure none | some r ↦ pure (env.strptime r) ]

  -- The frontmatter as a document; nothing or an empty one is a new mapping.
  unfoldable pub load_frontmatter : Option Text → Io env.Doc
  load_frontmatter none = pure env.empty_doc
  load_frontmatter (some fm) = do
    doc ← answer (env.yaml_load fm)
    elim doc [ none ↦ pure env.empty_doc | some d ↦ pure d ]

  -- The note with its two timestamps set.
  unfoldable pub restamp : env.Doc → Text → Text → Io Text
  unfolding unquote
  restamp doc body ts = do
    created ← answer (env.yaml_get doc (codes "created"))
    with_created ← elim created [
      | none ↦ answer (env.yaml_set doc (codes "created") ts)
      | some c ↦ pure doc
    ]
    stamped ← answer (env.yaml_set with_created (codes "modified") ts)
    dumped ← answer (env.yaml_dump stamped)
    pure (fm_delim ++ (unquote dumped ++ (fm_delim ++ body)))

  unfoldable pub write_text : FilePath → Text → Io (Unit {0})
  write_text path new t = answer (env.write_text t path new) (wrote path new ∷ t)

  -- What is written if the gate is open.
  unfoldable pub write_stamp : FilePath → Text → env.Doc → Text → Io Bool
  unfolding text_eq
  write_stamp path original doc body = do
    ts ← now_utc
    new ← restamp doc body ts
    if text_eq new original then pure false else (do write_text path new; pure true)

  -- The gate is closed if `modified` is there and not older than the file, in whole seconds.
  unfoldable pub gate_closed : ℕ → Option ℤ → Bool
  unfolding le_epoch
  gate_closed mtime none = false
  gate_closed mtime (some e) = le_epoch (mtime / second) e

  unfoldable pub stamp_note : FilePath → Io Bool
  unfolding split_frontmatter load_frontmatter modified_epoch write_stamp
  stamp_note path = do
    original ← (λ t. answer (env.read_text t path) (looked path ∷ t))
    let (fm, body) = split_frontmatter original
    doc ← load_frontmatter fm
    mtime ← (λ t. answer (env.mtime t path) (looked path ∷ t))
    modified ← modified_epoch doc
    if gate_closed mtime modified then pure false else write_stamp path original doc body

  unfoldable pub is_note : FilePath → Io Bool
  unfolding text_eq lower suffix
  is_note path t =
      returned (env.is_file t path && text_eq (lower (suffix path)) (codes ".md")) (looked path ∷ t)

  -- Every exception is caught and logged.
  unfoldable pub stamp : FilePath → Io Bool
  unfolding stamp_note
  stamp path =
      catch (do note ← is_note path; if note then stamp_note path else pure false)
        (λ e. (do log (stamping_failed path); pure false))

  unfoldable pub stamp_paths : List FilePath → Io (Unit {0})
  stamp_paths [] = pure tt
  stamp_paths (p ∷ ps) = do stamp p; stamp_paths ps
