-- ===== src/Samples/Naming.antt =====
-- Runs of the naming functions, and the theorems at concrete inputs.
use cambium.Strconv.{Text}
use cambium.Identifiers.{
  NameKey, IdentAllocator, Request, allocate, allocate_all, struct_family, name_of, same_key,
}
use cambium.Identifiers.Families.{Disjoint, allocate-Disjoint}
use cambium.Identifiers.Suffixes.{allocate_total}
use cambium.Identifiers.Separate.{single-IsSeparate}
use cambium.Prelude.{List, [], ◌∷◌, ℕ, some, ◌≡◌, refl}
use cambium.Prelude.{◌≡◌, refl}
use cambium.IfFeature.Tokenizer.{codes}
use cambium.IfFeature.Expr.{valid_yang_identifier}
use cambium.CamelCase.{camel_case}
use cambium.CamelCase.Exported.{IsExported, camel_case-IsExported}

ietf_interfaces : camel_case (codes "ietf-interfaces") ≡ codes "IETFInterfaces"
unfolding camel_case
ietf_interfaces = refl

camel_case-IsExported_example : IsExported (camel_case (codes "_x2-mtu.v1"))
camel_case-IsExported_example =
    camel_case-IsExported (codes "_x2-mtu.v1") (unfold valid_yang_identifier in refl)

abbrev single : Text → List Text
single n = n ∷ []

abbrev key : ℕ → NameKey
key n = record { node = n; role = codes "struct" }

abbrev started : IdentAllocator
started = record { used = codes "Decimal64" ∷ []; names = [] }

abbrev port : ℕ → Request
port n = record { key = key n; base = codes "Port"; family = struct_family }

abbrev behind_one : IdentAllocator
behind_one = record {
  used = codes "Port" ∷ codes "PortFieldOrder" ∷ codes "Decimal64" ∷ [];
  names = (key 1, codes "Port") ∷ [];
}

abbrev behind_two : IdentAllocator
behind_two = record {
  used = codes "Port2" ∷ codes "Port2FieldOrder" ∷ behind_one.used;
  names = (key 2, codes "Port2") ∷ behind_one.names;
}

one : allocate started (key 1) (codes "Port") struct_family ≡ some (codes "Port", behind_one)
unfolding allocate struct_family
one = refl

two : allocate behind_one (key 2) (codes "Port") struct_family ≡ some (codes "Port2", behind_two)
unfolding allocate struct_family cambium.Strconv.format_uint
two = refl

allocate-Disjoint_example : Disjoint (struct_family (codes "Port")) (struct_family (codes "Port2"))
allocate-Disjoint_example =
    allocate-Disjoint started behind_one behind_one behind_two (port 1) (port 2) [] (codes "Port")
      (codes "Port2") (unfold name_of in refl) one (unfold allocate_all in refl)
      (unfold name_of same_key in refl) two

allocate_total_example :
    (name : Text) × (b : IdentAllocator) × (allocate behind_two (key 3) (codes "Port") single
      ≡ some (name, b))
allocate_total_example =
    allocate_total behind_two (key 3) (codes "Port") single (single-IsSeparate (codes "Port"))
