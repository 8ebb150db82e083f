-- ===== src/Common/Store.antt =====
-- The files that the program writes: a map from paths to contents, and what the `os` calls do to
-- it.
use codesign.Common.Tests.{Bytes, equal, equal_self, equal_iff, ◌==◌, if◌then◌else◌, Bool-cases}
use codesign.Common.Errors.{Result, ok, err}
use mathlib.Core.Bool.{Bool, true, false, not, ◌&&◌}
use mathlib.Core.List.{List, [], ◌∷◌, ◌++◌}
use mathlib.Core.Logic.{inl, inr}
use mathlib.Core.Option.{Option, none, some}
use mathlib.Core.Path.{◌≡◌, refl}
use native.Mathlib.Omega.{arith}

abbrev pub Store : Type 0
Store = List (Bytes × Bytes)

-- The content of the file at a path.
unfoldable pub content : Bytes → Store → Option Bytes
content path [] = none
content path ((q, b) ∷ s) = if equal q path then some b else content path s

-- Whatever stood at the path is gone.
unfoldable pub remove : Bytes → Store → Store
remove path [] = []
remove path ((q, b) ∷ s) = let rest = remove path s in if equal q path then rest else (q, b) ∷ rest

-- The file is created or replaced.
unfoldable pub put : Bytes → Bytes → Store → Store
put path b s = (path, b) ∷ remove path s

abbrev move_content : Option Bytes → Bytes → Bytes → Store → Store
move_content none from to s = s
move_content (some b) from to s = put to b (remove from s)

-- A rename that replaces its target; a missing source changes nothing.
unfoldable pub rename : Bytes → Bytes → Store → Store
rename from to s = move_content (content from s) from to s

-- Does a path lie below a directory?
unfoldable pub is_below : Bytes → Bytes → Bool
is_below [] [] = false
is_below [] (c ∷ _) = c == b'/'
is_below (d ∷ dir) [] = false
is_below (d ∷ dir) (c ∷ path) = c == d && is_below dir path

-- `os.Remove` whose error is ignored: where it fails the file stays.
abbrev pub discard : Result (Unit {0}) → Bytes → Store → Store
discard (ok _) path s = remove path s
discard (err e) path s = s

-- `os.RemoveAll` of a directory, whose error is ignored: what it cannot remove stays.
unfoldable pub remove_all : (Bytes → Bool) → Bytes → Store → Store
remove_all stays dir [] = []
remove_all stays dir ((q, b) ∷ s) =
    let rest = remove_all stays dir s in
    if is_below dir q && not (stays q) then rest else (q, b) ∷ rest

-- A file of a directory lies below it.
pub is_below-append : (dir name : Bytes) → is_below dir (dir ++ (b'/' ∷ name)) ≡ true
unfolding is_below
is_below-append [] name = refl
is_below-append (d ∷ dir) name = ground (arith, is_below-append dir name)

pub content-remove :
    (p q : Bytes) (s : Store) → content q (remove p s) ≡ (if equal p q then none else content q s)
unfolding content remove
content-remove p q [] = ground arith
content-remove p q ((r, b) ∷ s) =
    ground (arith, equal_iff r p, equal_iff r q, equal_iff p q, content-remove p q s)

pub content-put :
    (p q b : Bytes) (s : Store)
    → content q (put p b s) ≡ (if equal p q then some b else content q s)
unfolding put content
content-put p q b s = ground (arith, content-remove p q s)

pub content-remove_all :
    (stays : Bytes → Bool) (dir q : Bytes) (s : Store)
    → content q (remove_all stays dir s)
      ≡ (if is_below dir q && not (stays q) then none else content q s)
unfolding content remove_all
content-remove_all stays dir q [] = ground arith
content-remove_all stays dir q ((r, b) ∷ s) = elim (Bool-cases (equal r q)) [
  | inl same ↦
      let is_q = (equal_iff r q).0 same in
      rw is_q (ground (arith, equal_self q, content-remove_all stays dir q s))
  | inr other ↦ ground (arith, other, content-remove_all stays dir q s)
]

pub content-rename :
    (p r q b : Bytes) (s : Store)
    → content p s ≡ some b
    → content q (rename p r s)
      ≡ (if equal r q then some b else if equal p q then none else content q s)
unfolding rename
content-rename p r q b s h =
    rw h (ground (arith, content-put r q b (remove p s), content-remove p q s))

pub rename-none : (p r : Bytes) (s : Store) → content p s ≡ none → rename p r s ≡ s
unfolding rename
rename-none p r s h = rw h
