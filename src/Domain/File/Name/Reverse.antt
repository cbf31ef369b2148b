-- ===== src/Domain/File/Name/Reverse.antt =====
-- lied/src/domain/file.rs: a file name that is shown leads back to the name and the format.
use lied.Prelude.{
  ℕ, ◌≡◌, refl, subst, true, false, none, some, List, [], ◌∷◌, ◌++◌, inl, inr, ◌==◌, All,
  Bool-cases, arith,
}
use lied.Prelude.Text.{Text, codes, text_eq, concat}
use lied.Domain.File.Name.{
  Arm, match_arms, is_word, mime_arms, base_of, format_and_ext_for_mime, mime_for_ext, rsplit_once,
  split_filename, is_nil, trim, to_ascii_lowercase, before,
}

module _ {ℓ κ} {A : Type ℓ} (P : A → Type κ) where
  match_arms-All :
      (arms : List (Arm A)) (w : Text) {a : A}
      → All (λ (r : Arm A). P r.value) arms
      → match_arms arms w ≡ some a
      → P a
  unfolding match_arms
  match_arms-All [] w _ e = absurd (cc)
  match_arms-All (r ∷ arms) w (p, ps) e = elim (Bool-cases (is_word r.words w)) [
    | inl k ↦ let e' = rw k at e in subst P (cc) p
    | inr k ↦ match_arms-All arms w ps (rw k at e)
  ]

-- An extension from the table is its media type's, and has no point in it.
pub record IsExtension (pair : Text × Text) : Type 0 where
  pub mime : Text
  pub mime_of_ext : mime_for_ext pair.1 ≡ some mime
  pub pair_of_mime : format_and_ext_for_mime mime ≡ some pair
  pub no_point : rsplit_once b'.' pair.1 ≡ none
  pub not_empty : is_nil pair.1 ≡ false

extensions : All (λ (r : Arm (Text × Text)). IsExtension r.value) mime_arms
unfolding mime_for_ext format_and_ext_for_mime rsplit_once match_arms text_eq to_ascii_lowercase
    trim before concat
extensions = (
  record {
    mime = codes "application/x-lilypond";
    mime_of_ext = refl;
    pair_of_mime = refl;
    no_point = refl;
    not_empty = refl;
  },
  (
    record {
      mime = codes "application/vnd.recordare.musicxml+xml";
      mime_of_ext = refl;
      pair_of_mime = refl;
      no_point = refl;
      not_empty = refl;
    },
    (
      record {
        mime = codes "application/pdf";
        mime_of_ext = refl;
        pair_of_mime = refl;
        no_point = refl;
        not_empty = refl;
      },
      (
        record {
          mime = codes "image/png";
          mime_of_ext = refl;
          pair_of_mime = refl;
          no_point = refl;
          not_empty = refl;
        },
        (
          record {
            mime = codes "image/jpeg";
            mime_of_ext = refl;
            pair_of_mime = refl;
            no_point = refl;
            not_empty = refl;
          },
          (
            record {
              mime = codes "image/tiff";
              mime_of_ext = refl;
              pair_of_mime = refl;
              no_point = refl;
              not_empty = refl;
            },
            (
              record {
                mime = codes "image/gif";
                mime_of_ext = refl;
                pair_of_mime = refl;
                no_point = refl;
                not_empty = refl;
              },
              (
                record {
                  mime = codes "image/webp";
                  mime_of_ext = refl;
                  pair_of_mime = refl;
                  no_point = refl;
                  not_empty = refl;
                },
                (
                  record {
                    mime = codes "image/bmp";
                    mime_of_ext = refl;
                    pair_of_mime = refl;
                    no_point = refl;
                    not_empty = refl;
                  },
                  tt,
                ),
              ),
            ),
          ),
        ),
      ),
    ),
  ),
)

pub format_and_ext_for_mime-IsExtension :
    (mime : Text) {pair : Text × Text} → format_and_ext_for_mime mime ≡ some pair → IsExtension pair
unfolding format_and_ext_for_mime
format_and_ext_for_mime-IsExtension mime e =
    match_arms-All IsExtension mime_arms (base_of mime) extensions e

rsplit_once-last :
    (c : ℕ) (stem ext : Text)
    → rsplit_once c ext ≡ none
    → rsplit_once c (stem ++ c ∷ ext) ≡ some (stem, ext)
unfolding rsplit_once
rsplit_once-last c [] ext e =
    let same : (c == c) ≡ true = ground arith in rw (rsplit_once, e, same) refl
rsplit_once-last c (d ∷ stem) ext e = rw (rsplit_once-last c stem ext e) refl

pub split_filename-last :
    (stem ext : Text)
    → is_nil stem ≡ false
    → is_nil ext ≡ false
    → rsplit_once b'.' ext ≡ none
    → split_filename (stem ++ b'.' ∷ ext) ≡ some (stem, ext)
unfolding split_filename
split_filename-last stem ext s x e =
    rw (split_filename, rsplit_once-last b'.' stem ext e, s, x) refl
