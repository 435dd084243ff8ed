-- ===== src/Examples/JsonText.antt =====
-- A text for the metadata of a file that can be read again.
use Prim.Native.String.{String}
use apicrud.Prelude.{
  ℕ, zero, suc, Option, none, some, ◌≡◌, refl, ap, ◌∙◌, Char, if◌then◌else◌, char_eq,
}
use apicrud.Python.Text.{same_char}
use apicrud.Storage.{FileMeta, Json}

-- a value is written in front of a text, and read from its front
pub record Format (A : Type 0) : Type 0 where
  pub write : A → String → String
  pub read : String → Option (A × String)
  pub read-write : (a : A) (s : String) → read (write a s) ≡ some (a, s)

abbrev write_text : String → String → String
write_text String.[] s = String.◌∷◌ "!" s
write_text (String.◌∷◌ c t) s = String.◌∷◌ "." (String.◌∷◌ c (write_text t s))

abbrev with_char : Option (String × String) → Char → Option (String × String)
with_char none c = none
with_char (some (t, s)) c = some (String.◌∷◌ c t, s)

-- `.` is in front of each character, and `!` behind the last one
abbrev read_text : String → Option (String × String)
read_text String.[] = none
read_text (String.◌∷◌ c String.[]) = if same_char c "!" then some ("", "") else none
read_text (String.◌∷◌ c (String.◌∷◌ d s)) =
    let rest = with_char (read_text s) d in
    if same_char c "!" then some ("", String.◌∷◌ d s) else rest

pub read-write_text : (t s : String) → read_text (write_text t s) ≡ some (t, s)
read-write_text String.[] String.[] = refl
read-write_text String.[] (String.◌∷◌ c s) = refl
read-write_text (String.◌∷◌ c t) s =
    ap (λ (r : Option (String × String)). with_char r c) (read-write_text t s)

abbrev texts : Format String
texts = record { write = write_text; read = read_text; read-write = read-write_text }

abbrev write_number : ℕ → String → String
write_number zero s = String.◌∷◌ "!" s
write_number (suc n) s = String.◌∷◌ "1" (write_number n s)

abbrev one_more : Option (ℕ × String) → Option (ℕ × String)
one_more none = none
one_more (some (n, s)) = some (suc n, s)

abbrev read_number : String → Option (ℕ × String)
read_number String.[] = none
read_number (String.◌∷◌ c s) =
    let rest = one_more (read_number s) in if same_char c "!" then some (0, s) else rest

pub read-write_number : (n : ℕ) (s : String) → read_number (write_number n s) ≡ some (n, s)
read-write_number zero s = refl
read-write_number (suc n) s = ap one_more (read-write_number n s)

abbrev numbers : Format ℕ
numbers = record { write = write_number; read = read_number; read-write = read-write_number }

module _ {A : Type 0} (format : Format A) where
  abbrev write_option : Option A → String → String
  write_option none s = String.◌∷◌ "n" s
  write_option (some a) s = String.◌∷◌ "s" (format.write a s)

  abbrev made_some : Option (A × String) → Option (Option A × String)
  made_some none = none
  made_some (some (a, s)) = some (some a, s)

  abbrev read_option : String → Option (Option A × String)
  read_option String.[] = none
  read_option (String.◌∷◌ c s) =
      if same_char c "n" then some (none, s) else made_some (format.read s)

  pub read-write_option : (o : Option A) (s : String) → read_option (write_option o s) ≡ some (o, s)
  read-write_option none s = refl
  read-write_option (some a) s = ap made_some (format.read-write a s)

  abbrev optional : Format (Option A)
  optional = record { write = write_option; read = read_option; read-write = read-write_option }

module _ {A : Type 0} {B : Type 0} (first : Format A) (second : Format B) where
  abbrev with_first : A → Option (B × String) → Option ((A × B) × String)
  with_first a none = none
  with_first a (some (b, s)) = some ((a, b), s)

  abbrev read_both : Option (A × String) → Option ((A × B) × String)
  read_both none = none
  read_both (some (a, s)) = with_first a (second.read s)

  abbrev both : Format (A × B)
  both = record {
    write = λ p s. first.write p.0 (second.write p.1 s);
    read = λ s. read_both (first.read s);
    read-write = λ p s.
        ap read_both (first.read-write p.0 (second.write p.1 s))
        ∙ ap (with_first p.0) (second.read-write p.1 s);
  }

abbrev Fields : Type 0
Fields =
    (String × Option String)
    × ((Option ℕ × String)
        × ((Option ℕ × Option String)
            × ((Option String × String)
                × ((String × Option String)
                    × ((Option String × Option ℕ) × (Option String × Option ℕ))))))

abbrev fields : FileMeta → Fields
fields m = (
  (m.created, m.ctype),
  (
    (m.duration, m.fid),
    (
      (m.height, m.modified),
      ((m.name, m.oid), ((m.path, m.pid), ((m.sid, m.size), (m.uid, m.width)))),
    ),
  ),
)

abbrev meta_from : Fields → FileMeta
meta_from
      (
        (created, ctype),
        (
          (duration, fid),
          ((height, modified), ((name, oid), ((path, pid), ((sid, size), (uid, width))))),
        ),
      ) =
    record {
      created = created;
      ctype = ctype;
      duration = duration;
      fid = fid;
      height = height;
      modified = modified;
      name = name;
      oid = oid;
      path = path;
      pid = pid;
      sid = sid;
      size = size;
      uid = uid;
      width = width;
    }

abbrev formats : Format Fields
formats = both (both texts (optional texts)) (
    both (both (optional numbers) texts) (
      both (both (optional numbers) (optional texts)) (
        both (both (optional texts) texts) (
          both (both texts (optional texts)) (
            both (both (optional texts) (optional numbers))
              (both (optional texts) (optional numbers)))))))

abbrev meta_of_fields : Option (Fields × String) → Option FileMeta
meta_of_fields none = none
meta_of_fields (some (f, s)) = some (meta_from f)

abbrev pub json_text : Json
json_text = record {
  dumps = λ m. formats.write (fields m) "";
  loads = λ t. meta_of_fields (formats.read t);
  loads-dumps = λ m. ap meta_of_fields (formats.read-write (fields m) "");
}
