-- ===== src/Lib.antt =====
-- A model of the code of the asio_coro_frame repository and theorems about it.
--
-- The parts and their files, with paths from the repository's root:
-- Base.antt: names of the libraries, lists and texts (a text is a list of bytes), std::map as a sorted
--   association list, and the reading of numbers.
-- Pool.antt: class ThreadedPool of src/serverResource.hpp. The state is the two maps of queues and the
--   number of dials. A method holds the mutex, so a call of it is one step; `waits` stands for a call
--   that would wait on the condition variable. The dial, searchBySlots and the free callback are
--   parameters. Events are the calls of several threads in any order, with the connections that they
--   hold. Threads takes pullConnection and pushConnection of one pool apart: a critical section, a wait
--   on the condition variable and a call of notify_one are a step each, and Bag is what the callers see;
--   Drain is disconnect of one ConPool among those threads.
-- Http.antt: the rest of src/serverResource.hpp. Files is default_resource["GET"] for files, Flow is
--   deal_with_flow_number and the choice between the two, Handler the whole handler of GET, Replace is
--   replace_all and replace_all_distinct, and Server is serverRedisResource with main of src/main.cpp.
--   The file system, redis and the clock's text are parameters.
-- Report.antt: src/tools/all_report. The result sets of MySQL Connector/C++ and the arithmetic of double
--   are parameters (Env). Action is a computation on a line and the member m_res that ends with a
--   value, with continue, with a thrown exception or with a call through a null pointer. Passes has
--   the loop bodies, Run the loops with their catch clauses, insert_data and start; Excel and Csv write
--   the report, File goes from the report's query to the sheet, and Program is the program. Frame,
--   Passed, Insert and Safety have one rule for each way to build a body, and search puts them together;
--   Alone is the report line by line instead of pass by pass, Alone/Terms what five columns
--   have and Alone/Complete what a whole line has, in terms of the database.
-- Attendance.antt: src/tools/work_attendance, the reader with its callbacks, the writer, Start, which puts
--   them together, and Program, which is main. mktime and what xlsxio makes of a file are parameters.
-- Fastcgi.antt: src/fastcgi, one round of router::run with pdf_api and redis_api; Router is its loop,
--   over a list of results of FCGX_Accept_r, with main of main.cpp. The FCGI library, the JSON parser
--   and system are parameters.
-- Config.antt: iconfig of src/common. Its constructor reads a parsed file, which is a parameter; Instance
--   has get_instance as statements that several threads execute in any order.
-- Log.antt: the severity levels of src/common/log.h and the filter that initlog of log.cpp sets; Init is
--   initlog as its calls of Boost.Log, any of which may throw.
-- Database.antt: mysql_connect of src/common. The connector is a parameter, and result sets are a store,
--   since get_res shares them.
-- Import.antt: src/tools/excel_to_mysql, with xlsxio as a parameter.
-- Trials.antt: src/test. Session is the class session of test1.hpp as a step relation of two coroutines,
--   the clock and the network, over a Boost.Asio that is a parameter with its documented behaviour as
--   hypotheses; Server is server, any number of sessions side by side; Client is client, Task is task
--   with test_coro, Strand is test_strand of test.hpp. Product is foo of test2.hpp on an int of 32
--   bits, Channel is its test and test3, over a channel of libgo that is a parameter.
--
-- Fuel: insert_rows has one more than rowsCount, which is enough under the laws of a cursor;
-- remove_dots and send_chunks have one more than the length of the text, which is enough; the two
-- replace functions take their fuel as an argument, and the theorems say how much is enough, or that
-- none is.
--
-- Not modelled: the copies of other libraries (libgo, redispp, cpp-hiredis-cluster,
-- Simple-Web-Server, json, fifo_map, xlsxio, wkhtmltox), since the code only calls them; main of
-- src/tools/excel_to_mysql, which only calls start_report; the constructor and run of test_strand in
-- src/test/test.hpp, which only call Boost; test2 and the timing of test1 in src/test/test2.hpp.
pub mod Base
pub mod Pool
pub mod Report
pub mod Trials
pub mod Import
pub mod Log
pub mod Database
pub mod Http
pub mod Attendance
pub mod Fastcgi
pub mod Config
