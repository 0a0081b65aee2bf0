-- ===== src/QuestDb/Build/Volumes/Laws.antt =====
-- How the operator's lines stand behind those of the user in `server.conf`.
use questdb_operator.Prelude.{
  arith, ℕ, String, ◌≡◌, refl, ap, ◌∙◌, sym, Option, none, some, List, [], ◌∷◌, ◌++◌, if◌then◌else◌,
  ◌==◌,
}
use mathlib.Core.List.{append_assoc}
use questdb_operator.Kube.Error.{ok}
use questdb_operator.Kube.Meta.{MetaLib, Owns, object_key}
use questdb_operator.Kube.Objects.Storage.{PersistentVolumeClaim}
use questdb_operator.Kube.Objects.Workload.{Secret, ConfigMap}
use questdb_operator.Api.Types.{QuestDb, QuestDbStatus}
use questdb_operator.Api.Config.{bytes, newline}
use questdb_operator.Api.Config.Laws.{join_lines}
use questdb_operator.Secrets.{QuestDbSecrets}
use questdb_operator.QuestDb.Build.Volumes.{
  claim, build_pvc, build_config_map, DefaultTexts, config_map_object, db_config_suffix,
}

-- The lines that the operator adds.
abbrev pub operator_lines : Option Secret → List (List ℕ)
operator_lines none = bytes "### Reserved values -- set by the operator ###" ∷ []
operator_lines (some s) =
    bytes "### Reserved values -- set by the operator ###"
    ∷ bytes "ilp.auth.file=/var/lib/questdb/auth/auth.json"
    ∷ []

-- The text of a key of a config map.
abbrev pub content_of : String → List (String × List ℕ) → List ℕ
content_of key [] = []
content_of key ((k, text) ∷ contents) = if k == key then text else content_of key contents

join_lines-append : (xs ys : List (List ℕ)) → join_lines (xs ++ ys) ≡ join_lines xs ++ join_lines ys
join_lines-append [] ys = refl
join_lines-append (x ∷ xs) ys =
    ap (λ text. x ++ newline ∷ text) (join_lines-append xs ys)
    ∙ sym (append_assoc x (newline ∷ join_lines xs) (join_lines ys))

db_config_suffix_lem :
    (o p : Option Secret)
    → db_config_suffix (record { ilp_secret = o; psql_secret = p })
      ≡ newline ∷ join_lines (operator_lines o)
unfolding db_config_suffix
db_config_suffix_lem none p = refl
db_config_suffix_lem (some s) p = refl

db_config_suffix-lines :
    (s : QuestDbSecrets) (last : List ℕ)
    → last ++ db_config_suffix s ≡ join_lines (last ∷ operator_lines s.ilp_secret)
db_config_suffix-lines s last =
    ap (λ text. last ++ text) (db_config_suffix_lem s.ilp_secret s.psql_secret)

-- Whatever the configuration of the user ends with, the text `last` behind its last newline is
-- a line of its own in server.conf, behind it stand the lines of the operator, and nothing else.
pub server_conf-lines :
    (texts : DefaultTexts) (q : QuestDb) (s : QuestDbSecrets) (lines : List (List ℕ))
    (last : List ℕ)
    → q.spec.config.server_config ≡ join_lines lines ++ last
    → content_of "server.conf" (config_map_object texts q s).contents
      ≡ join_lines (lines ++ (last ∷ operator_lines s.ilp_secret))
unfolding config_map_object
server_conf-lines texts q s lines last e =
    rw (e, append_assoc (join_lines lines) last (db_config_suffix s), db_config_suffix-lines s last)
      (sym (join_lines-append lines (last ∷ operator_lines s.ilp_secret)))

-- The objects do not depend on the status of the database, and their owner does not change by what
-- they are found.
module _ (lib : MetaLib) (q : QuestDb) where
  pub build_pvc_status :
      (status : QuestDbStatus) → build_pvc lib (record q { status = status }) ≡ build_pvc lib q
  unfolding build_pvc claim
  build_pvc_status status = refl

  pub build_config_map_status :
      (texts : DefaultTexts) (s : QuestDbSecrets) (status : QuestDbStatus)
      → build_config_map lib texts (record q { status = status }) s ≡ build_config_map lib texts q s
  unfolding build_config_map config_map_object
  build_config_map_status texts s status = refl

  -- The claim asks for the size of the volume.
  pub build_pvc_owned :
      Owns lib
      → (t : PersistentVolumeClaim) × (build_pvc lib q ≡ ok t)
        × (object_key t.meta ≡ object_key q.meta)
        × (t.spec.storage_request ≡ q.spec.volume.size)
  unfolding build_pvc claim
  build_pvc_owned owns =
      let (meta, owned, key) = owns q.meta (claim q).meta refl in
      (record (claim q) { meta = meta }, ground (arith, owned), key, refl)

  pub build_config_map_owned :
      (texts : DefaultTexts) (s : QuestDbSecrets)
      → Owns lib
      → (t : ConfigMap) × (build_config_map lib texts q s ≡ ok t)
        × (object_key t.meta ≡ object_key q.meta)
  unfolding build_config_map config_map_object
  build_config_map_owned texts s owns =
      let (meta, owned, key) = owns q.meta (config_map_object texts q s).meta refl in
      (record (config_map_object texts q s) { meta = meta }, ground (arith, owned), key)
