-- ===== src/Glossary/Consistency.antt =====
-- What a valid glossary of crates/linguamesh-domain/src/lib.rs guarantees.
use Prim.Native.String.{String}
use linguamesh_core.Base.{
  ◌≡◌, ◌≢◌, ◌↔◌, ◌≤◌, ◌<◌, ◌⊎◌, inl, refl, Bool, true, false, ◌&&◌, ℕ, Option, none, some, List, [],
  ◌∷◌, ◌++◌, All, any, Text, len, length, trim, contains_char, text_eq_iff, ok, err,
  reject_if-eq-ok, >>-eq-ok, for_each, for_each-eq-ok, arith,
}
use linguamesh_core.Profile.Detection.{IsToken, looks_like_credential-IsToken}
use linguamesh_core.Glossary.{
  GlossaryEntry, Glossary, conflicting_entries, too_many_entries, validate_glossary_text,
  validate_optional, validate_entry, bool_eq, option_eq, is_conflict, reject_conflicts,
  validate_glossary, new_glossary,
}

-- Two entries that are enabled for the same matches have the same target term. Whether they are
-- immutable is not compared: one of them may keep the source term.
unfoldable pub Agree : GlossaryEntry → GlossaryEntry → Type 0
Agree l r =
    (l.enabled ≡ false)
    ⊎ (r.enabled ≡ false)
    ⊎ (l.source_term ≢ r.source_term)
    ⊎ (l.case_sensitive ≢ r.case_sensitive)
    ⊎ (l.source_locale ≢ r.source_locale)
    ⊎ (l.target_locale ≢ r.target_locale)
    ⊎ (l.domain ≢ r.domain)
    ⊎ (l.target_term ≡ r.target_term)

-- Any entry agrees with any later one.
abbrev pub IsConsistent : List GlossaryEntry → Type 0
IsConsistent [] = Unit
IsConsistent (l ∷ rest) = All (Agree l) rest × IsConsistent rest

bool_eq_iff : (a b : Bool) → (bool_eq a b ≡ true) ↔ (a ≡ b)
bool_eq_iff true b = ground arith
bool_eq_iff false b = ground arith

option_eq_iff : (s t : Option Text) → (option_eq s t ≡ true) ↔ (s ≡ t)
option_eq_iff none none = ground arith
option_eq_iff none (some t) = ground arith
option_eq_iff (some s) none = ground arith
option_eq_iff (some s) (some t) = ground (arith, text_eq_iff s t)

is_conflict-Agree : (l r : GlossaryEntry) → ((l.enabled && is_conflict l r) ≡ false) ↔ Agree l r
unfolding is_conflict Agree
is_conflict-Agree l r = ground (
  arith,
  text_eq_iff l.source_term r.source_term,
  bool_eq_iff l.case_sensitive r.case_sensitive,
  option_eq_iff l.source_locale r.source_locale,
  option_eq_iff l.target_locale r.target_locale,
  option_eq_iff l.domain r.domain,
  text_eq_iff l.target_term r.target_term,
)

any_conflict-Agree :
    (l : GlossaryEntry) (rest : List GlossaryEntry)
    → ((l.enabled && any (is_conflict l) rest) ≡ false) ↔ All (Agree l) rest
any_conflict-Agree l [] = ground arith
any_conflict-Agree l (r ∷ rest) = ground (arith, is_conflict-Agree l r, any_conflict-Agree l rest)

reject_conflicts-IsConsistent :
    (es : List GlossaryEntry) → (reject_conflicts es ≡ ok tt) ↔ IsConsistent es
unfolding reject_conflicts
reject_conflicts-IsConsistent [] = ground arith
reject_conflicts-IsConsistent (l ∷ rest) =
    ground (arith, any_conflict-Agree l rest, reject_conflicts-IsConsistent rest)

-- A text that is not blank, is bounded, and has neither a NUL nor a token of a known shape.
pub record IsTerm (max_bytes : ℕ) (v : Text) : Type 0 where
  pub not_blank : trim v ≢ []
  pub bounded : len v ≤ max_bytes
  pub no_nul : contains_char 0 v ≡ false
  pub no_token : ¬ ((a : Text) × (t : Text) × (b : Text) × (v ≡ a ++ (t ++ b)) × IsToken t)

abbrev pub Optional : ℕ → Option Text → Type 0
Optional max_bytes none = Unit
Optional max_bytes (some v) = IsTerm max_bytes v

pub record IsClean (e : GlossaryEntry) : Type 0 where
  pub source_term : IsTerm 512 e.source_term
  pub target_term : IsTerm 512 e.target_term
  pub source_locale : Optional 64 e.source_locale
  pub target_locale : Optional 64 e.target_locale
  pub domain : Optional 128 e.domain
  pub notes : Optional 2048 e.notes

validate_glossary_text-IsTerm :
    (v : Text) (n : ℕ) (field : String) → validate_glossary_text v n field ≡ ok tt → IsTerm n v
unfolding validate_glossary_text
validate_glossary_text-IsTerm v n field h = record {
  not_blank = ground arith;
  bounded = ground arith;
  no_nul = ground arith;
  no_token = λ (a, u, b, e, i). ground (arith, looks_like_credential-IsToken a u b i, e);
}

validate_optional-Optional :
    (o : Option Text) (n : ℕ) (field : String) → validate_optional o n field ≡ ok tt → Optional n o
validate_optional-Optional none n field h = tt
validate_optional-Optional (some v) n field h = validate_glossary_text-IsTerm v n field h

validate_entry-IsClean : (e : GlossaryEntry) → validate_entry e ≡ ok tt → IsClean e
unfolding validate_entry
validate_entry-IsClean e h =
    let (a, h1) = >>-eq-ok _ _ h in
    let (b, h2) = >>-eq-ok _ _ h1 in
    let (c, h3) = >>-eq-ok _ _ h2 in
    let (d, h4) = >>-eq-ok _ _ h3 in
    let (f, g) = >>-eq-ok _ _ h4 in
    record {
      source_term = validate_glossary_text-IsTerm _ _ _ a;
      target_term = validate_glossary_text-IsTerm _ _ _ b;
      source_locale = validate_optional-Optional _ _ _ c;
      target_locale = validate_optional-Optional _ _ _ d;
      domain = validate_optional-Optional _ _ _ f;
      notes = validate_optional-Optional _ _ _ g;
    }

-- `new` gives exactly the entries it was given, and only if there are at most 256, each of them
-- is clean, and no two that are enabled for the same matches have different target terms.
pub new_glossary-IsConsistent :
    (es : List GlossaryEntry) (g : Glossary)
    → new_glossary es ≡ ok g
    → (g.entries ≡ es) × (length es ≤ 256) × All IsClean es × IsConsistent es
unfolding new_glossary validate_glossary
new_glossary-IsConsistent es g h =
    let (a, b) = >>-eq-ok _ _ h in
    let (few, c) = >>-eq-ok _ _ a in
    let (each, d) = >>-eq-ok _ _ c in
    (
      ground arith,
      ground (arith, reject_if-eq-ok _ _ few),
      clean es (for_each-eq-ok _ es each),
      (reject_conflicts-IsConsistent es).0 d,
    )
  where
    clean : (l : List GlossaryEntry) → All (λ e. validate_entry e ≡ ok tt) l → All IsClean l
    clean [] k = tt
    clean (e ∷ l) k = (validate_entry-IsClean e k.0, clean l k.1)

reject_conflicts-cases :
    (es : List GlossaryEntry)
    → ((reject_conflicts es ≡ ok tt) × IsConsistent es)
      ⊎ ((reject_conflicts es ≡ err conflicting_entries) × (¬ IsConsistent es))
unfolding reject_conflicts
reject_conflicts-cases [] = inl (refl, tt)
reject_conflicts-cases (l ∷ rest) =
    ground (arith, any_conflict-Agree l rest, reject_conflicts-cases rest)

All-valid :
    (es : List GlossaryEntry)
    → All (λ e. validate_entry e ≡ ok tt) es
    → for_each validate_entry es ≡ ok tt
All-valid [] h = refl
All-valid (e ∷ es) h = ground (arith, All-valid es h.1)

-- A list of entries that are each valid is refused exactly when it is too long or two of its
-- entries conflict, and the error says which.
pub validate_glossary_refuses :
    (g : Glossary)
    → All (λ e. validate_entry e ≡ ok tt) g.entries
    → ((validate_glossary g ≡ ok tt) × (length g.entries ≤ 256) × IsConsistent g.entries)
      ⊎ ((validate_glossary g ≡ err too_many_entries) × (256 < length g.entries))
      ⊎ ((validate_glossary g ≡ err conflicting_entries)
          × (length g.entries ≤ 256)
          × (¬ IsConsistent g.entries))
unfolding validate_glossary
validate_glossary_refuses g valid =
    ground (arith, All-valid g.entries valid, reject_conflicts-cases g.entries)
