-- ===== src/Lib.antt =====
-- The verification library of hq_components: C components for ESP32 firmware that keep parameters,
-- exchange them between a controller and a server over Wi-Fi, and drive a small device with
-- buttons, a display and sensors.
--
-- Parts and files. backend/parameters.c keeps the values and strings and their copy in the flash
-- (Backend/Parameters). backend/parse_cmd.c gives the packets their meaning at the server
-- (Backend/Frame, Backend/ParseCmd), over the parameter store. backend/cmd_server.c is the server's
-- task: it accepts one client, reads packets and hands them to the parser (Backend/CmdServer, with
-- the sends in its child Api and its own requests in its child Answers). backend/cmd_client.c is
-- the client's task (Backend/CmdClient), backend/cmd_client_req.c builds requests and reads their
-- answers (Backend/CmdClientReq), with its queue and the memory of requests in the child Queue.
-- Both tasks are started and stopped by the callbacks of backend/wifidrv.c (Backend/Wifidrv) and
-- supervised by drv/keepalive.c (Drv/Keepalive). drv/ringBuff.c is a ring buffer (Drv/RingBuff),
-- drv/fast_add.c changes values while a button is held (Drv/FastAdd), and oled_ui/menu_drv.c walks
-- through menus (OledUi/MenuDrv). drv/but.c scans buttons (Drv/But), drv/water_flow_sensor.c counts
-- pulses (Drv/WaterFlowSensor), drv/battery.c measures the battery (Drv/Battery) and, as does
-- drv/power_on.c (Drv/PowerOn) after some time without a connection, switches the power off;
-- drv/sleep.c lays the device to sleep (Drv/Sleep), drv/buzzer.c beeps (Drv/Buzzer), drv/pcf8574.c
-- sets the pins of port expanders (Drv/Pcf8574), drv/pwm_drv.c drives an output with a duty
-- (Drv/PwmDrv) for the lights of drv/led.c (Drv/Led), drv/ultrasonar.c reads distances from a
-- serial line (Drv/Ultrasonar), drv/ota_drv.c downloads a new firmware (Drv/OtaDrv, with the
-- handler of HTTP events, which nothing registers, in its child Http), drv/dev_config.c keeps the
-- serial number (Drv/DevConfig), and drv/error_code.c names the error codes (Drv/ErrorCode).
-- oled_ui/oled.c draws on the canvas of the display: pixels and glyphs (OledUi/Oled), and text in
-- fonts (OledUi/Oled/Text). The parameters are also served over HTTP: mongoose_drv/http_server.c
-- routes a message to a callback (MongooseDrv/HttpServer), those of mongoose_drv/parameters_api.c
-- work on the parameter store (MongooseDrv/ParametersApi), and
-- mongoose_drv/http_parameters_client.c asks them (MongooseDrv/HttpParametersClient);
-- MongooseDrv/Text has the reading of numbers that both share, and MongooseDrv/Sample what the
-- tests put in the place of mongoose and of the project. Functions keep the C names without their
-- module prefix, in lower case: parameters_setValue is Backend.Parameters.set_value,
-- _close_soc_state of the server is Backend.CmdServer.close_soc_state. The comment above a
-- definition names the C function where it differs.
--
-- State and time. A task's context is a record and a round of its loop a function on it; what the
-- network, the flash, the radio and the clock answer are arguments. The tasks that share a context
-- are events in a list, in the order in which they run; a handler is one step, but for
-- cmdClientRead, which is cut at select(). Words are native numbers with their wrap-around written
-- out. A read behind an array or a NULL pointer that is followed gives none.
--
-- Bounds and fuel. Parameters are those of the project followed by the five of parameters.c; the
-- project's own list is a parameter. The parser's loop runs on one more fuel than it has bytes, and
-- each round takes a byte. The loop of cmdClientTryConnect runs on fuel that its theorem leaves
-- open. The loops over parameters, samples and the table of voltages run as often as there are
-- entries. The loop of a download runs on fuel: one more than the calls that esp_https_ota_perform
-- needs is enough. Rounds of tasks are given as lists.
--
-- Not modelled. The ESP-IDF, FreeRTOS, lwIP and mongoose, which are not part of the repository's
-- own code; the copy of the ssd1306 library in oled/; and the tables of the fonts. Of mongoose and
-- of sprintf the model has what the code relies on, as hypotheses: patterns without wildcards match
-- themselves only, a # matches the rest, equal texts compare as 0, and %ld prints decimal digits or
-- a sign. Of the modelled files: the log of a scan in wifidrv.c, and the drawing and the start of
-- menu_drv.c.
pub mod Prelude
pub mod Backend
pub mod Drv
pub mod MongooseDrv
pub mod OledUi
