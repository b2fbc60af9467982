-- ===== src/Bindings/Python.antt =====
-- The declarations of the Python module: bindings/python/module.cpp here, and bind_types.cpp in the children. What
-- pybind11 does with a declaration of a class or a function is not modelled; here is what they declare.
pub mod Enums
pub mod Named
pub mod Attributes
pub mod Config
pub mod Raises
pub mod Views
pub mod Seen
use py_net_ft.Common.{String}
use py_net_ft.Exception.{Exception, invalid_argument, not_connected_error, discovery_error}

-- A Python exception: one of the three that the module registers, or one that pybind11 makes of another.
pub data PythonError : Type 0 where
  validation_error : String → PythonError
  not_connected : String → PythonError
  discovery_failed : String → PythonError
  other_error : Exception → PythonError

-- The built-in class that a registered exception extends.
pub data PythonBase : Type 0 where
  value_error connection_error builtin : PythonBase

unfoldable pub translate : Exception → PythonError
translate (invalid_argument message) = validation_error message
translate (not_connected_error message) = not_connected message
translate (discovery_error message) = discovery_failed message
translate e = other_error e

unfoldable pub base_of : PythonError → PythonBase
base_of (validation_error message) = value_error
base_of (not_connected message) = connection_error
base_of (discovery_failed message) = connection_error
base_of (other_error e) = builtin
