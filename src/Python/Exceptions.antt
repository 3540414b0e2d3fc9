-- ===== src/Python/Exceptions.antt =====
-- The built-in exceptions that the source catches or can meet. A pydantic ValidationError is a
-- ValueError of its own class.
pub data Exception : Type 0 where
  type_error value_error validation_error attribute_error : Exception
  key_error index_error overflow_error recursion_error other_error : Exception
