-- ===== src/Client/Replace.antt =====
-- `writeAtomic` and `SignFile` of client.go, over a file store.
pub mod Contents
use codesign.Common.{
  ℕ, ◌*◌, ◌^◌, ◌%◌, ◌≡◌, refl, sym, ap, ◌∙◌, true, ◌&&◌, [], ◌∷◌, Option, none, some, arith, Bytes,
  codes, take, equal, equal_iff, equal_self, if◌then◌else◌, inl, inr, Bool-cases,
}
use codesign.Common.Errors.{Error, Result, ok, err, wrap, fault, not_exist, is_ok, Result-cases}
use codesign.Common.Store.{
  Store, content, put, remove, discard, rename, content-put, content-remove, content-rename,
}
use codesign.Client.{Config, SignOptions, Attempt, sign}
use codesign.Text.FilePath.{base}

-- What the system calls of one `writeAtomic` come to. The name is that of a new file; a write that
-- fails has written some bytes. Before it, the input is opened and read; `os.Stat` gives the mode
-- of a file.
pub record Writing : Type 0 where
  pub reading : Result (Unit {0})
  pub temp : Result Bytes
  pub written : Option (ℕ × Error)
  pub closed : Result (Unit {0})
  pub output_stat : Result ℕ
  pub input_stat : Result ℕ
  pub chmod : ℕ → Result (Unit {0})
  pub renamed : Result (Unit {0})
  pub removed : Result (Unit {0})

-- `FileMode.Perm`.
abbrev pub perm : ℕ → ℕ
perm mode = mode % 8 ^ 3

abbrev pub output_mode : Result ℕ → Result ℕ → ℕ
output_mode (ok mode) input = perm mode
output_mode (err e) (ok mode) = perm mode
output_mode (err e) (err f) = 6 * 8 ^ 2

-- A step behind the creation: the temporary file is removed if it fails. The error of the removal is
-- ignored.
abbrev pub or_remove :
    Result (Unit {0})
    → Bytes
    → Bytes
    → Result (Unit {0})
    → Store
    → Store × Result (Unit {0})
    → Store × Result (Unit {0})
or_remove removed temp note (err e) s next = (discard removed temp s, err (wrap note e))
or_remove removed temp note (ok _) s next = next

abbrev pub replaced : Writing → Bytes → Bytes → Store → Store × Result (Unit {0})
replaced w temp output s = or_remove w.removed temp (codes "closing signed file") w.closed s (
    or_remove w.removed temp (codes "setting output permissions")
      (w.chmod (output_mode w.output_stat w.input_stat)) s
      (or_remove w.removed temp (codes "replacing output file") w.renamed s
        (rename temp output s, ok tt)))

abbrev pub written_to :
    Writing → Bytes → Bytes → Bytes → Store → Option (ℕ × Error) → Store × Result (Unit {0})
written_to w temp signed output s none = replaced w temp output (put temp signed s)
written_to w temp signed output s (some (n, e)) = (
  discard w.removed temp (put temp (take n signed) s),
  err (wrap (codes "writing signed file") e),
)

abbrev pub created : Writing → Bytes → Bytes → Store → Result Bytes → Store × Result (Unit {0})
created w signed output s (err e) = (s, err (wrap (codes "creating temp file") e))
created w signed output s (ok temp) = written_to w temp signed output s w.written

unfoldable pub write_atomic : Writing → Bytes → Bytes → Store → Store × Result (Unit {0})
write_atomic w signed output s = created w signed output s w.temp

abbrev pub write_out : Writing → Bytes → Store → Result Bytes → Store × Result (Unit {0})
write_out w output s (err e) = (s, err e)
write_out w output s (ok signed) = write_atomic w signed output s

-- `os.ReadFile`.
abbrev pub read_file : Result (Unit {0}) → Option Bytes → Result Bytes
read_file (err e) there = err e
read_file (ok _) none = err (fault not_exist)
read_file (ok _) (some file) = ok file

abbrev pub opened :
    Config
    → (ℕ → Attempt)
    → Writing
    → Bytes
    → Bytes
    → SignOptions
    → Store
    → Result Bytes
    → Store × Result (Unit {0})
opened config web w input output opts s (err e) = (s, err (wrap (codes "reading input") e))
opened config web w input output opts s (ok file) =
    write_out w output s (sign config web (base input) file opts)

abbrev pub output_or : Bytes → Bytes → Bytes
output_or input [] = input
output_or input (c ∷ output) = c ∷ output

unfoldable pub sign_file :
    Config
    → (ℕ → Attempt)
    → Writing
    → Bytes
    → Bytes
    → SignOptions
    → Store
    → Store × Result (Unit {0})
sign_file config web w input output opts s =
    opened config web w input (output_or input output) opts s
      (read_file w.reading (content input s))
