-- ===== src/Drawing.antt =====
-- Drawing on a shared screen: the board of desktop/screen_drawing.cpp, without its widgets and painting, and
-- desktop/screen_drawing_session.cpp, which keeps the boards of the presenter and of the viewers alike.
pub mod Board
pub mod Session
mod Tests
