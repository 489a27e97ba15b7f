-- ===== src/Request.antt =====
-- http/request.hpp and http/request.cpp: the first line, the cookies, the range header, and the answer with a file
pub mod Text
pub mod Cookies
pub mod Range
pub mod Line
pub mod Reply
pub mod Reads
pub mod Round
pub mod Slices
pub mod Answers
mod Tests
