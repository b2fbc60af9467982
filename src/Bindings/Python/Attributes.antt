-- ===== src/Bindings/Python/Attributes.antt =====
-- What `def_readwrite` and `def_property` of bindings/python/bind_types.cpp declare of a class: attributes that are
-- read and assigned, each with a type of its own.
use py_net_ft.Common.{String}

pub record Attributes (Owner : Type 0) (Attribute : Type 0) (TypeOf : Attribute → Type 0)
    : Type 0 where
  pub name : Attribute → String
  pub read : (a : Attribute) → Owner → TypeOf a
  pub assign : (a : Attribute) → TypeOf a → Owner → Owner
