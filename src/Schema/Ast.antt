-- ===== src/Schema/Ast.antt =====
-- schema/ast.rs: the parsed schema.
use chiffondb.Prelude.{ℕ, Bool, List, Option, String}

pub data TypeExpr : Type 0 where
  int float boolean date_time string json blob : TypeExpr
  vector : ℕ → TypeExpr
  list : TypeExpr → TypeExpr
  dict : TypeExpr → TypeExpr → TypeExpr
  node_ref edge_ref named : String → TypeExpr

pub record FieldDef : Type 0 where
  pub name : String
  pub type_expr : TypeExpr
  pub indexed : Bool
  pub unique : Bool

pub record BoundParam : Type 0 where
  pub name : String
  pub bound : Option String

pub record NodeDef : Type 0 where
  pub name : String
  pub type_params : List String
  pub extends : Option String
  pub fields : List FieldDef

pub record EdgeDef : Type 0 where
  pub name : String
  pub generic_params : List BoundParam
  pub from : TypeExpr
  pub to : TypeExpr
  pub props : List FieldDef

pub data Definition : Type 0 where
  node : NodeDef → Definition
  edge : EdgeDef → Definition

pub record SchemaAst : Type 0 where
  pub definitions : List Definition
