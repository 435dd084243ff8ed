-- ===== src/Access/Rbac/Templates.antt =====
-- The templates of rbac.yaml that end in a replacement field, as str.format fills them in.
use Prim.Native.String.{String}
use text.Mathlib.TextLemmas.{append-nil, nil-append, cons-append}
use apicrud.Prelude.{true, Option, some, ◌≡◌, refl, ◌∙◌, ap, sym, ◌⧺◌}
use apicrud.Python.Text.{show}
use apicrud.Python.Format.{format, prepend, no_braces, format-append}
use apicrud.Access.Rbac.{env_of}

colon_append : (t : String) → String.◌∷◌ ":" t ≡ ":" ⧺ t
colon_append t = sym (cons-append ":" "" t ∙ ap (λ (u : String). String.◌∷◌ ":" u) (nil-append t))

list_id_field :
    (id owner_uid : Option String)
    → format (env_of id owner_uid) ":{list_id}" ≡ some (":" ⧺ show id)
unfolding format env_of
list_id_field id owner_uid = rw (append-nil (show id)) (ap some (colon_append (show id)))

pub format-list_id :
    (id owner_uid : Option String) (res : String)
    → no_braces res ≡ true
    → format (env_of id owner_uid) (res ⧺ ":{list_id}") ≡ some (res ⧺ (":" ⧺ show id))
format-list_id id owner_uid res h =
    format-append (env_of id owner_uid) res ":{list_id}" h
    ∙ ap (prepend res) (list_id_field id owner_uid)

uid_field : (id uid : Option String) → format (env_of id uid) ":{uid}" ≡ some (":" ⧺ show uid)
unfolding format env_of
uid_field id uid = rw (append-nil (show uid)) (ap some (colon_append (show uid)))

pub format-uid :
    (id uid : Option String) (res : String)
    → no_braces res ≡ true
    → format (env_of id uid) (res ⧺ ":{uid}") ≡ some (res ⧺ (":" ⧺ show uid))
format-uid id uid res h =
    format-append (env_of id uid) res ":{uid}" h ∙ ap (prepend res) (uid_field id uid)

lone_field : (id uid : Option String) → format (env_of id uid) "{uid}" ≡ some (show uid)
unfolding format env_of
lone_field id uid = rw (append-nil (show uid))

pub format_user :
    (id uid : Option String) → format (env_of id uid) "user/{uid}" ≡ some ("user/" ⧺ show uid)
unfolding no_braces
format_user id uid =
    format-append (env_of id uid) "user/" "{uid}" refl ∙ ap (prepend "user/") (lone_field id uid)
