-- ===== src/Go.antt =====
-- What the client uses of Go's standard library: escaping and the `URL` of net/url, query values,
-- decimal numbers and the joining of strings. They follow the documented behaviour of those packages.
pub mod Duration
pub mod Escape
pub mod Json
pub mod Sort
pub mod Strconv
pub mod Values
pub mod Url
pub mod Strings
pub mod StatusText
pub mod Time
