-- ===== src/Identifiers.antt =====
-- go/codegen/names.go: `identAllocator`, which hands out the package-level identifiers of a generated file
-- in families. A Go string is the list of its bytes, a schema node its number.
pub mod Families
pub mod Suffixes
pub mod Separate
use cambium.Prelude.{
  ℕ, zero, suc, ◌+◌, ◌-◌, ◌*◌, ◌/◌, ◌%◌, ◌^◌, ◌≤◌, ◌<◌, ◌≡◌, refl, sym, ap, ◌∙◌, ◌≢◌, ◌↔◌, ◌⊎◌, inl,
  inr, Bool, true, false, not, ◌&&◌, ◌||◌, Option, none, some, List, [], ◌∷◌, ◌++◌, map, arith, ltb,
  leb, ◌==◌, if◌then◌else◌, Bool-cases, Option-cases, length, All, Any, All-map, All-append, ltb→lt,
  leb→le,
}
use cambium.Strconv.{Text, format_uint}
use cambium.IfFeature.Tokenizer.{codes, same_word}

-- `runtimeIdentifiers`.
abbrev pub runtime_identifiers : List Text
runtime_identifiers =
    codes "AnyData"
    ∷ codes "CambiumStruct"
    ∷ codes "Decimal64"
    ∷ codes "FromJSONIETF"
    ∷ codes "InstanceIdentifier"
    ∷ codes "MetadataAnnotation"
    ∷ codes "NewAnyData"
    ∷ codes "NewDecimal64"
    ∷ codes "NewInstanceIdentifier"
    ∷ codes "NewInstanceIdentifierWithXMLNS"
    ∷ codes "NewMetadataAnnotation"
    ∷ codes "NewUserOrderedVec"
    ∷ codes "UserOrderedVec"
    ∷ codes "ValidationError"
    ∷ codes "WithDefaultsAll"
    ∷ codes "WithDefaultsAllTagged"
    ∷ codes "WithDefaultsExplicit"
    ∷ codes "WithDefaultsMode"
    ∷ codes "WithDefaultsTrim"
    ∷ []

pub record NameKey : Type 0 where
  pub node : ℕ
  pub role : Text

unfoldable pub same_key : NameKey → NameKey → Bool
unfolding same_word
same_key a b = (a.node == b.node) && same_word a.role b.role

-- The keys of the map `used`, and the entries of the map `names`.
pub record IdentAllocator : Type 0 where
  pub used : List Text
  pub names : List (NameKey × Text)

unfoldable pub new_ident_allocator : List Text → IdentAllocator
new_ident_allocator pattern_identifiers = record {
  used = runtime_identifiers ++ pattern_identifiers;
  names = [];
}

unfoldable pub is_used : List Text → Text → Bool
unfolding same_word
is_used [] m = false
is_used (u ∷ us) m = same_word u m || is_used us m

unfoldable pub name_of : List (NameKey × Text) → NameKey → Option Text
unfolding same_key
name_of [] key = none
name_of ((k, name) ∷ names) key =
    let rest = name_of names key in if same_key k key then some name else rest

-- The inner loop: no member of the family is used.
unfoldable pub is_free : List Text → List Text → Bool
unfolding is_used
is_free used [] = true
is_free used (m ∷ ms) = not (is_used used m) && is_free used ms

-- The loop over `suffix`, with the candidate `name`; `none` is out of fuel.
unfoldable pub free_name : ℕ → List Text → (Text → List Text) → Text → ℕ → Text → Option Text
unfolding is_free
free_name zero used family base suffix name = none
free_name (suc f) used family base suffix name =
    let next = free_name f used family base (suffix + 1) (base ++ format_uint suffix) in
    if is_free used (family name) then some name else next

-- The name, and the allocator that has reserved its family.
unfoldable pub reserved :
    IdentAllocator → NameKey → (Text → List Text) → Option Text → Option (Text × IdentAllocator)
reserved a key family none = none
reserved a key family (some name) =
    some (name, record { used = family name ++ a.used; names = (key, name) ∷ a.names })

unfoldable pub allocated :
    IdentAllocator
    → NameKey
    → Text
    → (Text → List Text)
    → Option Text
    → Option (Text × IdentAllocator)
unfolding reserved free_name
allocated a key base family (some name) = some (name, a)
allocated a key base family none =
    reserved a key family (free_name (length a.used + 1) a.used family base 2 base)

unfoldable pub allocate :
    IdentAllocator → NameKey → Text → (Text → List Text) → Option (Text × IdentAllocator)
unfolding allocated name_of
allocate a key base family = allocated a key base family (name_of a.names key)

unfoldable pub root_family : Text → List Text
root_family name =
    name
    ∷ (name ++ codes "FieldOrder")
    ∷ (name ++ codes "ModuleNS")
    ∷ (name ++ codes "ModuleName")
    ∷ []

unfoldable pub struct_family : Text → List Text
struct_family name = name ∷ (name ++ codes "FieldOrder") ∷ []

unfoldable pub operation_family : Text → List Text
operation_family name =
    name ∷ (name ++ codes "FieldOrder") ∷ (codes "From" ++ name ++ codes "JSONIETF") ∷ []

unfoldable pub restricted_scalar_family : Text → List Text
restricted_scalar_family name = name ∷ (codes "New" ++ name) ∷ (codes "Default" ++ name) ∷ []

unfoldable pub bits_family : Text → List Text
bits_family name = name ∷ (name ++ codes "BitPositions") ∷ (codes "New" ++ name) ∷ []

-- One request, and some of them in a row.
pub record Request : Type 0 where
  pub key : NameKey
  pub base : Text
  pub family : Text → List Text

unfoldable pub allocate_all : IdentAllocator → List Request → Option IdentAllocator
unfolding allocate
allocate_all a [] = some a
allocate_all a (r ∷ rs) = elim (allocate a r.key r.base r.family) [
  | none ↦ none
  | some (name, b) ↦ allocate_all b rs
]
