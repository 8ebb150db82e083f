-- ===== src/Server/Detect/Kinds.antt =====
-- What `detectKind` accepts: the class ids of the Windows Installer, and the two kinds of file.
use codesign.Common.{
  ℕ, zero, suc, ◌+◌, ◌*◌, ◌<◌, ◌≡◌, refl, sym, ap, ◌∙◌, ◌↔◌, ◌⊎◌, inl, inr, Bool, true, false, not,
  [], ◌∷◌, none, some, Option, arith, Bytes, length, take, drop, ◌==◌, equal, equal_iff,
  if◌then◌else◌, Option-cases,
}
use codesign.Server.Detect.{
  file_reader, reads, compound_root_clsid, is_installer_clsid, is_installer_id, installer_tail,
  cfbf_magic, fails_open, is_msi,
}
use codesign.Server.Detect.Bounds.{AreBytes}
use codesign.Server.Detect.Msi.{RootClsid, compound_root_clsid_iff}
use codesign.Server.Detect.Signature.{SignatureAt, signature_found, signature_read}

-- {000C10xx-0000-0000-C000-000000000046} in the byte order of a file.
abbrev pub installer_clsid : ℕ → Bytes
installer_clsid low = low ∷ 0x10 ∷ 0x0C ∷ 0x00 ∷ installer_tail

-- The class id of a database, a patch, a transform or a merge module.
abbrev pub IsInstaller : Bytes → Type 0
IsInstaller c =
    (c ≡ installer_clsid 0x84)
    ⊎ (c ≡ installer_clsid 0x86)
    ⊎ (c ≡ installer_clsid 0x82)
    ⊎ (c ≡ installer_clsid 0x90)

take_all : (n : ℕ) (xs : Bytes) → length xs ≡ n → take n xs ≡ xs
take_all zero [] h = refl
take_all zero (x ∷ xs) h = absurd (omega arith)
take_all (suc n) [] h = refl
take_all (suc n) (x ∷ xs) h = ap (◌∷◌ x) (take_all n xs (omega arith))

id_bytes :
    (a b c d : ℕ)
    → a < 256
    → b < 256
    → c < 256
    → d < 256
    → is_installer_id (a + 256 * b + 65536 * c + 16777216 * d) ≡ true
    → ((a ≡ 0x84) ⊎ (a ≡ 0x86) ⊎ (a ≡ 0x82) ⊎ (a ≡ 0x90)) × (b ≡ 0x10) × (c ≡ 0x0C) × (d ≡ 0)
id_bytes a b c d ha hb hc hd h = ground arith

three_tests :
    (t u v : Bool)
    → (if not t then false else if u then v else false) ≡ true
    → (t ≡ true) × (u ≡ true) × (v ≡ true)
three_tests t u v h = ground arith

length_four : (n : ℕ) → (n + 4 == 16) ≡ true → n ≡ 12
length_four n h = ground arith

IsInstaller-intro :
    (a : ℕ) (c : Bytes)
    → c ≡ installer_clsid a
    → (a ≡ 0x84) ⊎ (a ≡ 0x86) ⊎ (a ≡ 0x82) ⊎ (a ≡ 0x90)
    → IsInstaller c
IsInstaller-intro a c e (inl h) = inl (rw (← h) e)
IsInstaller-intro a c e (inr (inl h)) = inr (inl (rw (← h) e))
IsInstaller-intro a c e (inr (inr (inl h))) = inr (inr (inl (rw (← h) e)))
IsInstaller-intro a c e (inr (inr (inr h))) = inr (inr (inr (rw (← h) e)))

is_installer_clsid-IsInstaller :
    (c : Bytes) → AreBytes c → is_installer_clsid c ≡ true → IsInstaller c
unfolding is_installer_clsid
is_installer_clsid-IsInstaller [] bytes h = cc
is_installer_clsid-IsInstaller (a ∷ []) bytes h = cc
is_installer_clsid-IsInstaller (a ∷ b ∷ []) bytes h = cc
is_installer_clsid-IsInstaller (a ∷ b ∷ c ∷ []) bytes h = cc
is_installer_clsid-IsInstaller (a ∷ b ∷ c ∷ d ∷ rest) (ha, (hb, (hc, (hd, _)))) h =
    let (sized, id, tail) =
      three_tests (suc (suc (suc (suc (length rest)))) == 16)
        (is_installer_id (a + 256 * b + 65536 * c + 16777216 * d))
        (equal (take 12 rest) installer_tail) h in
    let long : length rest ≡ 12 = ground arith in
    let (low, is_b, is_c, is_d) = id_bytes a b c d ha hb hc hd id in
    let is_tail : rest ≡ installer_tail =
      sym (take_all 12 rest long) ∙ (equal_iff (take 12 rest) installer_tail).0 tail in
    IsInstaller-intro a _ (rw (is_b, is_c, is_d, is_tail)) low

IsInstaller-is_installer_clsid : (c : Bytes) → IsInstaller c → is_installer_clsid c ≡ true
unfolding is_installer_clsid equal
IsInstaller-is_installer_clsid c (inl e) = rw e refl
IsInstaller-is_installer_clsid c (inr (inl e)) = rw e refl
IsInstaller-is_installer_clsid c (inr (inr (inl e))) = rw e refl
IsInstaller-is_installer_clsid c (inr (inr (inr e))) = rw e refl

-- On a class id of bytes, `isInstallerCLSID` answers true exactly for the four class ids of the
-- Windows Installer.
pub is_installer_clsid_iff :
    (c : Bytes) → AreBytes c → (is_installer_clsid c ≡ true) ↔ IsInstaller c
is_installer_clsid_iff c bytes =
    (is_installer_clsid-IsInstaller c bytes, IsInstaller-is_installer_clsid c)

AreBytes-take : (n : ℕ) (s : Bytes) → AreBytes s → AreBytes (take n s)
AreBytes-take zero s h = tt
AreBytes-take (suc n) [] h = tt
AreBytes-take (suc n) (b ∷ s) h = (h.0, AreBytes-take n s h.1)

AreBytes-drop : (n : ℕ) (s : Bytes) → AreBytes s → AreBytes (drop n s)
AreBytes-drop zero s h = h
AreBytes-drop (suc n) [] h = tt
AreBytes-drop (suc n) (b ∷ s) h = AreBytes-drop n s h.1

RootClsid-AreBytes : (f c : Bytes) → AreBytes f → RootClsid f c → AreBytes c
RootClsid-AreBytes f c bytes r = rw r.clsid_is (AreBytes-take 16 _ (AreBytes-drop _ f bytes))

-- A compound file none of whose root class ids is another than an installer's. A file with no
-- readable root entry has no class id.
pub record IsMsi (f : Bytes) : Type 0 where
  pub is_compound : SignatureAt cfbf_magic f 0
  pub installer : (c : Bytes) → RootClsid f c → IsInstaller c

fails_open-true :
    (f : Bytes)
    → AreBytes f
    → fails_open (compound_root_clsid (file_reader f) (length f)) ≡ true
    → (c : Bytes) → RootClsid f c
    → IsInstaller c
fails_open-true f bytes h c r =
    (is_installer_clsid_iff c (RootClsid-AreBytes f c bytes r)).0
      (rw ((compound_root_clsid_iff f c).1 r) at h)

fails_open-intro :
    (f : Bytes)
    → AreBytes f
    → ((c : Bytes) → RootClsid f c → IsInstaller c)
    → fails_open (compound_root_clsid (file_reader f) (length f)) ≡ true
fails_open-intro f bytes all =
    elim (Option-cases (compound_root_clsid (file_reader f) (length f))) [
      | inl unread ↦ rw unread
      | inr (c, read) ↦
          let r = (compound_root_clsid_iff f c).0 read in
          rw read ((is_installer_clsid_iff c (RootClsid-AreBytes f c bytes r)).1 (all c r))
    ]

magic_and :
    (o : Option Bytes) (rest : Bool)
    → reads o (λ sig. if not (equal sig cfbf_magic) then false else rest)
      ≡ (if reads o (λ sig. equal sig cfbf_magic) then rest else false)
magic_and none rest = refl
magic_and (some b) rest = ground arith

and_parts : (t u : Bool) → (if t then u else false) ≡ true → (t ≡ true) × (u ≡ true)
and_parts t u h = ground arith

is_msi_lem :
    (f : Bytes)
    → is_msi (file_reader f) (length f) ≡ (
        if reads (file_reader f 0 8) (λ sig. equal sig cfbf_magic)
        then fails_open (compound_root_clsid (file_reader f) (length f))
        else false)
unfolding is_msi
is_msi_lem f = magic_and _ _

-- `isMSI`, on a file of bytes, answers true exactly when the file has the compound-file signature
-- and its root storage entry, where it has one inside it, bears an installer's class id.
pub is_msi_iff : (f : Bytes) → AreBytes f → (is_msi (file_reader f) (length f) ≡ true) ↔ IsMsi f
is_msi_iff f bytes = (to, from)
  where
    to : is_msi (file_reader f) (length f) ≡ true → IsMsi f
    to h =
        let (magic, passes) = and_parts _ _ (sym (is_msi_lem f) ∙ h) in
        record {
          is_compound = signature_found cfbf_magic f 0 magic;
          installer = fails_open-true f bytes passes;
        }

    from : IsMsi f → is_msi (file_reader f) (length f) ≡ true
    from m =
        is_msi_lem f
        ∙ rw (signature_read cfbf_magic f 0 m.is_compound) (fails_open-intro f bytes m.installer)
