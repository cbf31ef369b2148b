-- ===== src/WebDav/Fs/Results.antt =====
-- lied/src/webdav/fs.rs: the chains of results, with `?`, that hide what they refuse.
use lied.Prelude.{
  ◌≡◌, ◌⊎◌, refl, ap, Bool, true, false, Option, none, some, inl, inr, ok, err, ◌>>=◌, guard,
}
use lied.WebDav.Fs.{FsError, not_found, FsResult, ok_or}

-- A result that hides what it refuses.
abbrev pub Hides {ℓ} : {A : Type ℓ} → FsResult A → Type ℓ
Hides {A} r = (r ≡ err not_found) ⊎ ((a : A) × (r ≡ ok a))

pub Hides-ok_or {ℓ} : {A : Type ℓ} (o : Option A) → Hides (ok_or o not_found)
Hides-ok_or none = inl refl
Hides-ok_or (some a) = inr (a, refl)

pub Hides-guard : (b : Bool) → Hides (guard b not_found)
Hides-guard true = inr (tt, refl)
Hides-guard false = inl refl

pub Hides-bind {ℓ κ} :
    {A : Type ℓ} {B : Type κ} (r : FsResult A) (f : A → FsResult B)
    → Hides r
    → ((a : A) → Hides (f a))
    → Hides (r >>= f)
Hides-bind (ok a) f h k = k a
Hides-bind (err e) f (inl q) k = let same : e ≡ not_found = cc in inl (ap err same)
Hides-bind (err e) f (inr (a, q)) k = absurd (cc)

-- A step that succeeds whenever the rest does may be left out, where both hide.
pub skip {ℓ κ} :
    {A : Type ℓ} {B : Type κ} (r : FsResult A) (s : FsResult B)
    → Hides r
    → Hides s
    → ((b : B) → s ≡ ok b → (a : A) × (r ≡ ok a))
    → (r >>= λ _. s) ≡ s
skip r s (inr (a, e)) hs h = rw e refl
skip r s (inl e) (inl q) h = rw (e, q) refl
skip r s (inl e) (inr (b, q)) h = let (a, k) = h b q in absurd (cc)

pub bind-ok {ℓ κ} :
    {A : Type ℓ} {B : Type κ} (r : FsResult A) (f : A → FsResult B) {b : B}
    → (r >>= f) ≡ ok b
    → (a : A) × (r ≡ ok a) × (f a ≡ ok b)
bind-ok (ok a) f h = (a, refl, h)
bind-ok (err e) f h = absurd (cc)

pub ok_or-ok {ℓ} : {A : Type ℓ} (o : Option A) (e : FsError) {a : A} → ok_or o e ≡ ok a → o ≡ some a
ok_or-ok none e h = absurd (cc)
ok_or-ok (some b) e h = cc

pub guard-ok : (b : Bool) (e : FsError) {u : Unit {0}} → guard b e ≡ ok u → b ≡ true
guard-ok true e h = refl
guard-ok false e h = absurd (cc)
