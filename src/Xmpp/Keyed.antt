-- ===== src/Xmpp/Keyed.antt =====
-- The table of files keeps that each entry's stream has the number under which the entry stands.
use mathlib.Core.Path.{subst}
use v6chat.Base.{
  ◌≡◌, refl, sym, true, false, Option, none, some, [], ◌∷◌, arith, if◌then◌else◌, Bool-cases,
  Option-cases, inl, inr,
}
use v6chat.Text.{Text, text_eq, text_eq_iff}
use v6chat.Xmpp.File.{Stream, FileInformation}
use v6chat.Xmpp.Table.{FileList, find_file, insert_file, erase_file, change_file}

abbrev pub NamedBy : Text → Option Stream → Type 0
NamedBy sid none = Unit
NamedBy sid (some s) = s.sid ≡ sid

abbrev pub Keyed : FileList → Type 0
Keyed [] = Unit
Keyed ((k, fi) ∷ files) = NamedBy k fi.socks_stream × Keyed files

pub find_file-NamedBy :
    (sid : Text) (files : FileList) (fi : FileInformation)
    → Keyed files
    → find_file sid files ≡ some fi
    → NamedBy sid fi.socks_stream
unfolding find_file
find_file-NamedBy sid [] fi h e = cc
find_file-NamedBy sid ((k, old) ∷ files) fi h e = elim (Bool-cases (text_eq sid k)) [
  | inl same ↦
      let named : sid ≡ k = (text_eq_iff sid k).0 same in
      let found : old ≡ fi = ground arith in
      (subst (λ (t : Text). NamedBy t fi.socks_stream) (sym named)
        (subst (λ (x : FileInformation). NamedBy k x.socks_stream) found h.0))
  | inr other ↦ find_file-NamedBy sid files fi h.1 (ground arith)
]

insert_new :
    (sid : Text) (fi : FileInformation) (files : FileList)
    → find_file sid files ≡ none
    → insert_file sid fi files ≡ (sid, fi) ∷ files
unfolding insert_file
insert_new sid fi files e = rw (insert_file, e) refl

insert_old :
    (sid : Text) (fi old : FileInformation) (files : FileList)
    → find_file sid files ≡ some old
    → insert_file sid fi files ≡ files
unfolding insert_file
insert_old sid fi old files e = rw (insert_file, e) refl

pub insert_file-Keyed :
    (sid : Text) (fi : FileInformation) (files : FileList)
    → NamedBy sid fi.socks_stream
    → Keyed files
    → Keyed (insert_file sid fi files)
unfolding insert_file
insert_file-Keyed sid fi files n h = elim (Option-cases (find_file sid files)) [
  | inl e ↦ subst Keyed (sym (insert_new sid fi files e)) (n, h)
  | inr (old, e) ↦ subst Keyed (sym (insert_old sid fi old files e)) h
]

pub erase_file-Keyed : (sid : Text) (files : FileList) → Keyed files → Keyed (erase_file sid files)
unfolding erase_file
erase_file-Keyed sid [] h = tt
erase_file-Keyed sid ((k, fi) ∷ files) h =
    elim (text_eq sid k)
      as (λ x. Keyed (if x then erase_file sid files else (k, fi) ∷ erase_file sid files)) [
        | true ↦ erase_file-Keyed sid files h.1
        | false ↦ (h.0, erase_file-Keyed sid files h.1)
      ]

pub change_file-Keyed :
    (sid : Text) (fi : FileInformation) (files : FileList)
    → NamedBy sid fi.socks_stream
    → Keyed files
    → Keyed (change_file sid fi files)
unfolding change_file
change_file-Keyed sid fi [] n h = tt
change_file-Keyed sid fi ((k, old) ∷ files) n h = elim (Bool-cases (text_eq sid k)) [
  | inl e ↦
      let named : sid ≡ k = (text_eq_iff sid k).0 e in
      subst
        (λ x.
          Keyed
            (if x then (k, fi) ∷ change_file sid fi files else (k, old) ∷ change_file sid fi files))
        (sym e)
        (
          subst (λ (t : Text). NamedBy t fi.socks_stream) named n,
          change_file-Keyed sid fi files n h.1,
        )
  | inr e ↦
      subst
        (λ x.
          Keyed
            (if x then (k, fi) ∷ change_file sid fi files else (k, old) ∷ change_file sid fi files))
        (sym e) (h.0, change_file-Keyed sid fi files n h.1)
]
