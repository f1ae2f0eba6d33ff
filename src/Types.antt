-- ===== src/Types.antt =====
-- src/types.rs: the scalars of the language and the value lattice. The functions on them are in the
-- modules below.
pub mod Scalars
pub mod Shape
pub mod Assign
pub mod Equality
pub mod Targets
pub mod Order
pub mod Operators
pub mod Display
mod Tests
use jwc_lang.Prelude.{String}

pub data Scalar : Type 0 where
  smallint int bigint numeric boolean varchar text timestamptz : Scalar
  date time interval uuid jsonb inet bytea : Scalar

-- `Vec<(String, Ty)>` inside a type is the data type `Fields`, in the order of the projection.
mutual
  pub data Ty : Type 0 where
    scalar : Scalar → Ty
    enum : String → Ty
    class : String → Ty
    record_of : Fields → Ty
    raw : Ty
    array : Ty → Ty
    optional : Ty → Ty
    response : Ty
    null : Ty
    void : Ty
    unknown : Ty

  pub data Fields : Type 0 where
    end : Fields
    field : String → Ty → Fields → Fields
