-- ===== src/OledUi.antt =====
-- The modules of oled_ui/: the driver of the menus, and the drawing on the display.
pub mod MenuDrv
pub mod Oled
